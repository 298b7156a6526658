-- ===== src/Cli/Packets/Handed.antt =====
-- A packet that a command of app/cli_main.c has stored reaches src/g1.c as it is.
use ece_lib.Base.{
  map, ℕ, zero, suc, ◌^◌, ◌%◌, ◌<◌, ◌≤◌, ◌≡◌, refl, ap, sym, ◌∙◌, Bool, false, not, Option, none,
  some, List, [], ◌∷◌, ◌++◌, ◌==◌, ltb, leb, if◌then◌else◌, length, take, drop, replicate, arith,
  All, Bool-cases, inl, inr, length-append, length-take, length-drop,
}
use ece_lib.Machine.{Run, ok, ◌>>=◌, Returns}
use ece_lib.Md5.{hex_text}
use ece_lib.Misc.{print_payload, payload_lines, print_hex_ascii_line}
use ece_lib.Misc.Lines.{payload_lines-IsDump}
use ece_lib.Misc.Digits.{ch_to_hex-hex_text}
use ece_lib.Mgt.{Gateway}
use ece_lib.Mgt.Periodic.{Out}
use ece_lib.G1.{edge_rcv_pkt}
use ece_lib.Cli.Words.{hex_text-no_help}
use ece_lib.Cli.Packets.{
  pkt_array, PktPointer, built_in, app_file_pkt, Handover, built_in_at, cmd_wloc_rcv_cli_pkt,
  memory_of, cleared, access_wloc, take_packet, app_round,
}

-- The length is within the memory that the pointer leads to.
abbrev pub Within : Option PktPointer → ℕ → Type 0
Within none len = Unit
Within (some (built_in n)) len = n < 4 × len ≤ 128
Within (some app_file_pkt) len = len ≤ 512

pub record IsHandover (h : Handover) : Type 0 where
  pub whole : length h.file_pkt ≡ 512
  pub within : Within h.pkt h.len

-- The memory that is handed over.
unfoldable pub packet_at : Option PktPointer → Handover → List ℕ
packet_at none h = []
packet_at (some p) h = memory_of p h

-- The pointer and the length say that there is a packet.
unfoldable pub has_packet : Option PktPointer → ℕ → Bool
has_packet none len = false
has_packet (some p) len = not (len == 0)

-- What becomes of the state and what goes out, where a packet comes from a device at the port.
unfoldable pub received :
    (expr : List ℕ → Option Bool) (junk : List ℕ) (now port : ℕ) (pkt : List ℕ) (size : ℕ)
    → Gateway
    → Run (Gateway × List Out)
received expr junk now port pkt size g = do
  (ret, g', out) ← edge_rcv_pkt expr junk access_wloc port pkt size now g
  ok (g', out)

built_in-room : (n : ℕ) → n < 4 → length (built_in_at n).data_bytes ≡ 128
unfolding pkt_array
built_in-room zero small = refl
built_in-room (suc zero) small = refl
built_in-room (suc (suc zero)) small = refl
built_in-room (suc (suc (suc zero))) small = refl
built_in-room (suc (suc (suc (suc n)))) small = absurd (omega arith)

memory_of-room :
    (h : Handover) (p : PktPointer)
    → length h.file_pkt ≡ 512
    → Within (some p) h.len
    → h.len ≤ length (memory_of p h)
unfolding memory_of
memory_of-room h (built_in n) whole (small, fits) = omega (arith, built_in-room n small)
memory_of-room h app_file_pkt whole fits = omega arith

-- No packet that can be handed over is longer than an array.
len-small : (p : PktPointer) (len : ℕ) → Within (some p) len → len < 2 ^ 31
len-small (built_in n) len (small, fits) = omega arith
len-small app_file_pkt len fits = omega arith

print_payload-returns :
    (bytes : List ℕ) (n : ℕ)
    → length bytes ≡ n
    → 0 < n
    → n < 2 ^ 31
    → Returns (print_payload bytes n) λ lines. Unit {0}
unfolding print_payload
print_payload-returns bytes n size some_byte small =
    let (lines, run, _) = payload_lines-IsDump bytes (omega (arith, size)) in
    let same : n % 2 ^ 32 ≡ n = omega arith in
    let positive : leb (2 ^ 31) n ≡ false = ground arith in
    let run' : payload_lines bytes n ≡ ok lines = ap (payload_lines bytes) (sym size) ∙ run in
    (
      elim lines [
        | none ↦ none
        | some ls ↦ some (map (λ (bytes, offset). print_hex_ascii_line bytes offset) ls)
      ],
      rw (print_payload, same, positive, run') refl,
      tt,
    )

take_packet-received :
    (expr : List ℕ → Option Bool) (junk : List ℕ) (now : ℕ) (ptr : Option PktPointer) (h : Handover)
    (g : Gateway)
    → length h.file_pkt ≡ 512
    → Within ptr h.len
    → take_packet expr junk now ptr h g ≡ (
        if has_packet ptr h.len
        then received expr junk now h.port (packet_at ptr h) h.len g
        else ok (g, []))
unfolding take_packet has_packet received packet_at
take_packet-received expr junk now none h g whole within = refl
take_packet-received expr junk now (some p) h g whole within = elim (Bool-cases (h.len == 0)) [
  | inl empty ↦ rw empty refl
  | inr bytes ↦
      let room = memory_of-room h p whole within in
      let size : length (take h.len (memory_of p h)) ≡ h.len =
        length-take h.len (memory_of p h) ∙ omega arith in
      let (lines, run, _) =
        print_payload-returns (take h.len (memory_of p h)) h.len size (ground arith)
          (len-small p h.len within) in
      let inside : ltb (length (memory_of p h)) h.len ≡ false = ground arith in
      rw (bytes, inside, run) refl
]

-- Where the length is within the array that the pointer leads to, a round of `app_run` hands the packet
-- to `edge_rcv_pkt` by its pointer and its length, or nothing where there is none; it ends
-- as that call ends, and clears the pointer, the length and the module.
app_round-received :
    (expr : List ℕ → Option Bool) (junk : List ℕ) (now : ℕ) (h : Handover) (g : Gateway)
    → IsHandover h
    → app_round expr junk now h g ≡ (do
      (g', out) ←
          if has_packet h.pkt h.len
          then received expr junk now h.port (packet_at h.pkt h) h.len g
          else ok (g, [])
      ok (cleared h, g', out))
unfolding app_round
app_round-received expr junk now h g v =
    ap (λ (r : Run (Gateway × List Out)). r >>= λ (g', out). ok (cleared h, g', out))
      (take_packet-received expr junk now h.pkt h g v.whole v.within)

-- A packet of one to 512 bytes, typed in hexadecimal: the command stores it, and the next round hands
-- these bytes, in an array of 512 with zeros behind them, to `edge_rcv_pkt` as a packet of their
-- length at port 4, and ends as that call ends.
pub cmd_wloc_rcv_cli_pkt-received :
    (expr : List ℕ → Option Bool) (junk : List ℕ) (now : ℕ) (bytes : List ℕ) (h : Handover)
    (g : Gateway)
    → All (λ b. b < 256) bytes
    → 0 < length bytes
    → length bytes ≤ 512
    → Returns (cmd_wloc_rcv_cli_pkt (hex_text bytes ∷ []) h) λ h'.
      app_round expr junk now h' g ≡ (do
        (g', out) ←
            received expr junk now 4
              (bytes ++ drop (length bytes) (replicate 512 0))
              (length bytes)
              g
        ok (cleared h', g', out))
unfolding cmd_wloc_rcv_cli_pkt has_packet packet_at memory_of
cmd_wloc_rcv_cli_pkt-received expr junk now bytes h g small some_byte fits =
    let array = bytes ++ drop (length bytes) (replicate 512 0) in
    let h' : Handover = record {
      file_pkt = array;
      len = length bytes;
      port = 4;
      pkt = some app_file_pkt;
    } in
    let read = ch_to_hex-hex_text bytes (replicate 512 0) small fits in
    let there : (length bytes == 0) ≡ false = ground arith in
    let whole : length array ≡ 512 =
      length-append bytes (drop (length bytes) (replicate 512 0))
      ∙ omega (arith, length-drop {A = ℕ} (length bytes) (replicate 512 0)) in
    let v : IsHandover h' = record { whole = whole; within = fits } in
    (
      h',
      rw (cmd_wloc_rcv_cli_pkt, hex_text-no_help bytes, read, there) refl,
      app_round-received expr junk now h' g v ∙ rw there refl,
    )
