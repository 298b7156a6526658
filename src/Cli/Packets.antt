-- ===== src/Cli/Packets.antt =====
-- The commands of app/cli_main.c that hand a packet to the thread of app/main.c, and that thread's loop
-- `app_run`. The variables that they share are guarded by `g_app_mutex`.
pub mod Handed
pub mod Stored
use ece_lib.Base.{
  codes, ℕ, ◌+◌, ◌-◌, ◌^◌, Bool, not, ◌||◌, ◌&&◌, Option, none, some, List, [], ◌∷◌, ◌++◌, ◌==◌,
  ltb, leb, if◌then◌else◌, length, take, drop, get_or, replicate, min,
}
use ece_lib.Machine.{Run, ok, fault, out_of_bounds, ◌>>=◌}
use ece_lib.Misc.{ch_to_hex, print_payload}
use ece_lib.Mgt.{Gateway}
use ece_lib.Mgt.Periodic.{Out}
use ece_lib.G1.{edge_rcv_pkt}
use ece_lib.Cli.{Text, arg, asks_help, same_text, scan_lu}

-- `struct pkt`, `module` as `port`; the array `data` has 128 bytes, and those that are not written are 0.
pub record BuiltIn : Type 0 where
  pub port : ℕ
  pub len : ℕ
  pub data_bytes : List ℕ

abbrev pub padded_data : List ℕ → List ℕ
padded_data bytes = bytes ++ replicate (128 - length bytes) 0

-- One to ten.
abbrev pub ten : List ℕ
ten = 1 ∷ 2 ∷ 3 ∷ 4 ∷ 5 ∷ 6 ∷ 7 ∷ 8 ∷ 9 ∷ 10 ∷ []

abbrev pub g1_bytes : (last : ℕ) → List ℕ
g1_bytes last =
    0x83 ∷ 0x41 ∷ 0x20 ∷ 0xc7 ∷ 0xdd ∷ 0x11 ∷ 0x10 ∷ 0 ∷ 0 ∷ 2 ∷ 1 ∷ 3 ∷ 0 ∷ 10 ∷ last ∷ []

unfoldable pub pkt_array : List BuiltIn
pkt_array =
    record { port = 0; len = 10; data_bytes = padded_data ten }
    ∷ record { port = 1; len = 15; data_bytes = padded_data (g1_bytes 0) }
    ∷ record { port = 1; len = 15; data_bytes = padded_data (g1_bytes 1) }
    ∷ record {
      port = 2;
      len = 33;
      data_bytes = padded_data (ten ++ (ten ++ (ten ++ (1 ∷ 9 ∷ 8 ∷ []))));
    }
    ∷ []

-- Where `g_app_pkt` points: into the array above or to `g_app_file_pkt`.
pub data PktPointer : Type 0 where
  built_in : ℕ → PktPointer
  app_file_pkt : PktPointer

-- `g_app_pkt`, `g_app_pkt_len`, `g_app_pkt_module` and `g_app_file_pkt`.
pub record Handover : Type 0 where
  pub pkt : Option PktPointer
  pub len : ℕ
  pub port : ℕ
  pub file_pkt : List ℕ

abbrev no_built_in : BuiltIn
no_built_in = record { port = 0; len = 0; data_bytes = [] }

abbrev pub built_in_at : ℕ → BuiltIn
built_in_at n = get_or pkt_array n no_built_in

-- `num` is `-1` where no number is read; the greatest index is 3.
unfoldable pub cmd_wloc_rcv_builtin_pkt : List Text → Handover → Handover
unfolding pkt_array
cmd_wloc_rcv_builtin_pkt argv h =
    if not (length argv == 1)
    then h
    else if asks_help (arg argv 0)
    then h
    else (let num : ℕ = elim (scan_lu (arg argv 0)) [ none ↦ 2 ^ 64 - 1 | some n ↦ n ] in
        if ltb 3 num then h else record h {
          len = (built_in_at num).len;
          port = (built_in_at num).port;
          pkt = some (built_in num);
        })

abbrev pub default_path : Text
default_path = codes "./doc/one_pkt"

-- The content of a file that is shorter than the array of 512 bytes is followed by zeros.
abbrev pub filled : List ℕ → List ℕ
filled content = take 512 content ++ replicate (512 - length content) 0

-- `file` gives the content of a file that can be opened.
unfoldable pub cmd_wloc_rcv_file_pkt :
    (file : Text → Option (List ℕ)) → List Text → Handover → Handover
cmd_wloc_rcv_file_pkt file argv h =
    if leb 1 (length argv) && asks_help (arg argv 0)
    then h
    else (let path = if not (length argv == 1) then default_path else arg argv 0 in
        elim (file path) [
          | none ↦ h
          | some content ↦
              let read : Handover = record h { file_pkt = filled content } in
              let len = min 512 (length content) in
              if len == 0
              then read
              else record read { len = len; port = 3; pkt = some app_file_pkt }
        ])

unfoldable pub cmd_wloc_rcv_cli_pkt : List Text → Handover → Run Handover
cmd_wloc_rcv_cli_pkt argv h = if not (length argv == 1) || asks_help (arg argv 0) then ok h else do
  (len, bits) ← ch_to_hex (arg argv 0) (replicate 512 0)
  let read : Handover = record h { file_pkt = bits }
  ok (if len == 0 then read else record read { len = len; port = 4; pkt = some app_file_pkt })

-- The commands that store a packet.
pub data PacketCommand : Type 0 where
  recv_built_in recv_file recv_cli : PacketCommand

unfoldable pub run_packet :
    (file : Text → Option (List ℕ)) → PacketCommand → List Text → Handover → Run Handover
unfolding cmd_wloc_rcv_builtin_pkt cmd_wloc_rcv_file_pkt cmd_wloc_rcv_cli_pkt
run_packet file recv_built_in argv h = ok (cmd_wloc_rcv_builtin_pkt argv h)
run_packet file recv_file argv h = ok (cmd_wloc_rcv_file_pkt file argv h)
run_packet file recv_cli argv h = cmd_wloc_rcv_cli_pkt argv h

-- The memory that the pointer leads to.
unfoldable pub memory_of : PktPointer → Handover → List ℕ
unfolding pkt_array
memory_of (built_in n) h = (built_in_at n).data_bytes
memory_of app_file_pkt h = h.file_pkt

-- The start of a round.
unfoldable pub cleared : Handover → Handover
cleared h = record h { pkt = none; len = 0; port = 0 }

-- `ACCESS_WLOC`
abbrev pub access_wloc : ℕ
access_wloc = 0

-- The condition and the calls of `app_run`, for the pointer `g_app_pkt`. The packet is
-- printed, and the pointer into the array and `len` are handed over; a `len` beyond the array is out
-- of bounds.
unfoldable pub take_packet :
    (expr : List ℕ → Option Bool) (junk : List ℕ) (now : ℕ)
    → Option PktPointer
    → Handover
    → Gateway
    → Run (Gateway × List Out)
unfolding memory_of
take_packet expr junk now none h g = ok (g, [])
take_packet expr junk now (some p) h g =
    if h.len == 0
    then ok (g, [])
    else if ltb (length (memory_of p h)) h.len
    then fault out_of_bounds
    else do
      printed ← print_payload (take h.len (memory_of p h)) h.len
      (ret, g', out) ← edge_rcv_pkt expr junk access_wloc h.port (memory_of p h) h.len now g
      ok (g', out)

-- `app_run` from the wakeup on to the next wait.
unfoldable pub app_round :
    (expr : List ℕ → Option Bool) (junk : List ℕ) (now : ℕ)
    → Handover
    → Gateway
    → Run (Handover × Gateway × List Out)
unfolding cleared take_packet
app_round expr junk now h g = do
  (g', out) ← take_packet expr junk now h.pkt h g
  ok (cleared h, g', out)
