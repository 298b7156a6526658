-- ===== src/Mgt/InTime.antt =====
-- How long src/mgt.c takes to notice that no message comes.
use ece_lib.Base.{
  true, ◌-◌, ◌/◌, ℕ, zero, suc, ◌+◌, ◌*◌, ◌%◌, ◌≤◌, ◌<◌, ◌≡◌, ◌≢◌, ◌^◌, refl, ap, ◌∙◌, List, [],
  ◌∷◌, ◌==◌, arith, length, ==_iff,
}
use native.Mathlib.Nat.{add-mod_right, div-add-mod, mod-lt, mul-mod_right}
use ece_lib.Machine.{Returns}
use ece_lib.Mgt.{Gateway}
use ece_lib.Mgt.Protocol.{edge_status_offline, edge_status_online}
use ece_lib.Mgt.Offline.{IsQuiet, silent, hellos_due, silent-offline}

-- Where the next hello is `wait` seconds off, one more comes in every interval from there on.
hellos_due-le :
    (nows : List ℕ) (less k wait tick : ℕ)
    → (tick + wait) % suc less ≡ 0
    → wait + k * suc less < length nows
    → suc k ≤ hellos_due (suc less) tick nows
unfolding hellos_due
hellos_due-le [] less k wait tick next long = absurd (omega arith)
hellos_due-le (now ∷ nows) less k (suc wait) tick next long =
    let later =
      hellos_due-le nows less k wait (tick + 1) (ap (λ t. t % suc less) (omega arith) ∙ next)
        (omega (arith, long)) in
    omega (arith, later)
hellos_due-le (now ∷ nows) less zero zero tick next long =
    let here : (tick % suc less == 0) ≡ true =
      (==_iff (tick % suc less) 0).1 (ap (λ t. t % suc less) (omega arith) ∙ next) in
    rw here (omega arith)
hellos_due-le (now ∷ nows) less (suc k) zero tick next long =
    let now_due : tick % suc less ≡ 0 = ap (λ t. t % suc less) (omega arith) ∙ next in
    let here : (tick % suc less == 0) ≡ true = (==_iff (tick % suc less) 0).1 now_due in
    let again : (tick + 1 + less) % suc less ≡ 0 =
      ap (λ t. t % suc less) (omega arith) ∙ (add-mod_right tick (suc less) ∙ now_due) in
    let later = hellos_due-le nows less k less (tick + 1) again (omega (arith, long)) in
    rw here (omega (arith, later))

-- Some second of each interval is one of a hello.
next_hello : (less tick : ℕ) → (wait : ℕ) × (wait ≤ less) × ((tick + wait) % suc less ≡ 0)
next_hello less tick =
    let r = (tick + less) % suc less in
    let q = (tick + less) / suc less in
    let parts : suc less * q + r ≡ tick + less = div-add-mod (tick + less) (suc less) in
    let short : r < suc less = mod-lt (tick + less) (omega arith) in
    let whole : tick + (less - r) ≡ suc less * q = omega (arith, parts, short) in
    (less - r, omega arith, ap (λ t. t % suc less) whole ∙ mul-mod_right (suc less) q)

-- A client that is online, has missed less than `timeout_num` answers, has memory to send its hellos
-- from, and devices that are well formed and of products that have not been freed, gets through any
-- `timeout_num` hello intervals of seconds in which no message comes, without a fault, and is then
-- offline, if the counter of the seconds does not wrap.
pub silent_in_time :
    (nows junk : List ℕ) (g : Gateway)
    → IsQuiet g
    → g.ctl.hello_interval ≢ 0
    → g.ctl.status ≡ edge_status_online
    → g.stat.timeout < g.ctl.timeout_num
    → g.ctl.timeout_num < 2 ^ 32
    → g.tick + length nows < 2 ^ 64
    → g.ctl.timeout_num * g.ctl.hello_interval ≤ length nows
    → Returns (silent junk nows g) λ g'. g'.ctl.status ≡ edge_status_offline
silent_in_time nows junk g q some_interval on early small fits long =
    silent-offline nows junk g q some_interval on early small fits
      (omega (arith, enough g.ctl.timeout_num g.ctl.hello_interval early some_interval long))
  where
    enough :
        (num interval : ℕ)
        → g.stat.timeout < num
        → interval ≢ 0
        → num * interval ≤ length nows
        → num ≤ hellos_due interval g.tick nows
    enough zero interval early ne long = omega arith
    enough (suc k) zero early ne long = absurd (ne refl)
    enough (suc k) (suc less) early ne long =
        let (wait, near, due) = next_hello less g.tick in
        hellos_due-le nows less k wait g.tick due (omega (arith, near, long))
