-- ===== src/Cli/Packets/Stored.antt =====
-- What the packet commands of app/cli_main.c store.
use ece_lib.Base.{
  ℕ, zero, suc, ◌-◌, ◌^◌, ◌<◌, ◌≤◌, ◌≡◌, Bool, true, false, not, ◌||◌, ◌&&◌, Option, none, some,
  List, ◌==◌, ltb, leb, if◌then◌else◌, length, take, replicate, min, arith, Bool-cases,
  Option-cases, inl, inr, length-append, length-take, length-replicate,
}
use ece_lib.Machine.{WhenOk, returns, if-WhenOk, then-WhenOk}
use ece_lib.Misc.Buffer.{ch_to_hex-InBuffer}
use ece_lib.Cli.{Text, arg, asks_help, scan_lu}
use ece_lib.Cli.Packets.{
  pkt_array, built_in, app_file_pkt, Handover, built_in_at, filled, default_path,
  cmd_wloc_rcv_builtin_pkt, cmd_wloc_rcv_file_pkt, cmd_wloc_rcv_cli_pkt, PacketCommand,
  recv_built_in, recv_file, recv_cli, run_packet,
}
use ece_lib.Cli.Packets.Handed.{IsHandover}

built_in-short : (n : ℕ) → n < 4 → (built_in_at n).len ≤ 128
unfolding pkt_array
built_in-short zero small = omega arith
built_in-short (suc zero) small = omega arith
built_in-short (suc (suc zero)) small = omega arith
built_in-short (suc (suc (suc zero))) small = omega arith
built_in-short (suc (suc (suc (suc n)))) small = absurd (omega arith)

if-IsHandover :
    (b : Bool) (x y : Handover) → IsHandover x → IsHandover y → IsHandover (if b then x else y)
if-IsHandover true x y v w = v
if-IsHandover false x y v w = w

-- The array takes any content up to its size.
filled-whole : (content : List ℕ) → length (filled content) ≡ 512
filled-whole content = omega (
  arith,
  length-append (take 512 content) (replicate (512 - length content) 0),
  length-take 512 content,
  length-replicate {A = ℕ} (512 - length content) 0,
)

-- A new content of the array, which the pointer may lead to already.
refilled-IsHandover :
    (h : Handover) (bits : List ℕ)
    → IsHandover h
    → length bits ≡ 512
    → IsHandover (record h { file_pkt = bits })
refilled-IsHandover h bits v whole = record { whole = whole; within = v.within }

-- The array is handed over.
file-IsHandover :
    (h : Handover) (bits : List ℕ) (len port : ℕ)
    → length bits ≡ 512
    → len ≤ 512
    → IsHandover (record h { file_pkt = bits; len = len; port = port; pkt = some app_file_pkt })
file-IsHandover h bits len port whole fits = record { whole = whole; within = fits }

file_pkt-IsHandover :
    (file : Text → Option (List ℕ)) (argv : List Text) (h : Handover)
    → IsHandover h
    → IsHandover (cmd_wloc_rcv_file_pkt file argv h)
unfolding cmd_wloc_rcv_file_pkt
file_pkt-IsHandover file argv h v =
    if-IsHandover (leb 1 (length argv) && asks_help (arg argv 0)) _ _ v
      (elim (Option-cases (file (if not (length argv == 1) then default_path else arg argv 0))) [
        | inl absent ↦ rw absent v
        | inr (content, there) ↦ rw there (
            if-IsHandover (min 512 (length content) == 0) _ _
              (refilled-IsHandover h (filled content) v (filled-whole content))
              (file-IsHandover h (filled content) (min 512 (length content)) 3
                (filled-whole content) (omega arith)))
      ])

-- A number that is not beyond the array.
picked-IsHandover :
    (h : Handover) (n : ℕ)
    → IsHandover h
    → IsHandover (
        if ltb 3 n then h else record h {
          len = (built_in_at n).len;
          port = (built_in_at n).port;
          pkt = some (built_in n);
        })
picked-IsHandover h n v = elim (Bool-cases (ltb 3 n)) [
  | inl beyond ↦ rw beyond v
  | inr inside ↦ rw inside (
      let small : n < 4 = ground arith in
      record { whole = v.whole; within = (small, built_in-short n small) })
]

builtin_pkt-IsHandover :
    (argv : List Text) (h : Handover) → IsHandover h → IsHandover (cmd_wloc_rcv_builtin_pkt argv h)
unfolding cmd_wloc_rcv_builtin_pkt
builtin_pkt-IsHandover argv h v = if-IsHandover (not (length argv == 1)) _ _ v (
    if-IsHandover (asks_help (arg argv 0)) _ _ v
      (picked-IsHandover h (elim (scan_lu (arg argv 0)) [ none ↦ 2 ^ 64 - 1 | some n ↦ n ]) v))

cli_pkt-IsHandover :
    (argv : List Text) (h : Handover)
    → IsHandover h
    → WhenOk IsHandover (cmd_wloc_rcv_cli_pkt argv h)
unfolding cmd_wloc_rcv_cli_pkt
cli_pkt-IsHandover argv h v =
    if-WhenOk (not (length argv == 1) || asks_help (arg argv 0)) (returns v) (
      then-WhenOk (ch_to_hex-InBuffer (arg argv 0) (replicate 512 0)) λ (len, bits) (fits, whole).
        returns (
          if-IsHandover (len == 0) _ _ (refilled-IsHandover h bits v whole)
            (file-IsHandover h bits len 4 whole fits)))

-- Whatever the arguments and the file, after a command that ends normally the length of the packet is
-- within the array that the pointer leads to, if it was so before, and the array for a file has its size.
pub run_packet-IsHandover :
    (file : Text → Option (List ℕ)) (c : PacketCommand) (argv : List Text) (h : Handover)
    → IsHandover h
    → WhenOk IsHandover (run_packet file c argv h)
unfolding run_packet
run_packet-IsHandover file recv_built_in argv h v = returns (builtin_pkt-IsHandover argv h v)
run_packet-IsHandover file recv_file argv h v = returns (file_pkt-IsHandover file argv h v)
run_packet-IsHandover file recv_cli argv h v = cli_pkt-IsHandover argv h v
