-- ===== src/Mgt/Offline.antt =====
-- When src/mgt.c takes the client offline.
use ece_lib.Base.{
  ◌⊎◌, map, ◌++◌, ◌%◌, ◌≢◌, ◌∷◌, Bool, true, subst, sym, length, ℕ, ◌+◌, ◌≤◌, ◌<◌, ◌≡◌, refl, ◌^◌,
  false, ◌&&◌, List, [], ◌==◌, leb, arith, inl, inr, Bool-cases, if◌then◌else◌, ◌∙◌, ap,
}
use ece_lib.Machine.{Run, ok, ◌>>=◌, Returns, malloc, u32, u64}
use ece_lib.Pdt.{Catalog}
use ece_lib.Dev.{Edge}
use ece_lib.Dev.Ageing.{Report, do_device_update}
use ece_lib.Dev.Alive.{IsEdge, AllLive}
use ece_lib.Dev.Aged.{do_device_ageing-IsAged}
use ece_lib.Dev.Updated.{do_device_update-IsEdge}
use ece_lib.Dev.Live.{do_device_update-AllLive, IsAged-AllLive}
use ece_lib.Mgt.Protocol.{edge_up_mode_attr_periodic, edge_status_offline, edge_status_online}
use ece_lib.Mgt.{Control, Gateway}
use ece_lib.Mgt.Periodic.{Out, to_app, do_mgt_periodic, mgt_send_hello_msg, check_timeout}

-- The work of some seconds, at the times given, in which no message comes.
unfoldable pub silent : (junk nows : List ℕ) → Gateway → Run Gateway
silent junk [] g = ok g
silent junk (now ∷ nows) g = do (out, g') ← do_mgt_periodic junk now g; silent junk nows g'

-- How many of these seconds are those of a hello: the counter of the seconds is a multiple of the
-- interval.
unfoldable pub hellos_due : (interval tick : ℕ) (nows : List ℕ) → ℕ
hellos_due interval tick [] = 0
hellos_due interval tick (now ∷ nows) =
    (if tick % interval == 0 then 1 else 0) + hellos_due interval (tick + 1) nows

-- Memory is there, the devices are well formed and their products have not been freed.
pub record IsQuiet (g : Gateway) : Type 0 where
  pub memory : g.edge.catalog.mem ≡ []
  pub devs : IsEdge g.edge
  pub live : AllLive g.edge

abbrev after_hello : List ℕ → Gateway → Gateway
after_hello junk g = (mgt_send_hello_msg junk g).1

-- A hello that is sent changes one counter.
hello_sent :
    (junk : List ℕ) (g : Gateway)
    → IsQuiet g
    → IsQuiet (after_hello junk g)
      × ((after_hello junk g).ctl ≡ g.ctl)
      × ((after_hello junk g).tick ≡ g.tick)
      × ((after_hello junk g).stat.timeout ≡ (
          if g.ctl.status == edge_status_online then u32 (g.stat.timeout + 1) else g.stat.timeout))
unfolding mgt_send_hello_msg malloc
hello_sent junk g q =
    rw (q.memory) (record { memory = refl; devs = q.devs; live = q.live }, refl, refl, refl)

check-IsQuiet :
    (g : Gateway)
    → IsQuiet g
    → IsQuiet (check_timeout g)
      × ((check_timeout g).tick ≡ g.tick)
      × ((check_timeout g).stat ≡ g.stat)
unfolding check_timeout
check-IsQuiet g q =
    elim (Bool-cases
      (leb g.ctl.timeout_num g.stat.timeout && (g.ctl.status == edge_status_online))) [
        | inl missed ↦
            rw missed (record { memory = q.memory; devs = q.devs; live = q.live }, refl, refl)
        | inr answered ↦ rw answered (q, refl, refl)
      ]

-- The state behind the first two statements of a second.
abbrev first : List ℕ → Gateway → List Out × Gateway
first junk g = if g.tick % g.ctl.hello_interval == 0 then mgt_send_hello_msg junk g else ([], g)

abbrev checked : List ℕ → Gateway → Gateway
checked junk g = check_timeout (first junk g).1

first-IsQuiet :
    (junk : List ℕ) (g : Gateway)
    → IsQuiet g
    → IsQuiet (first junk g).1 × ((first junk g).1.ctl ≡ g.ctl)
first-IsQuiet junk g q = elim (Bool-cases (g.tick % g.ctl.hello_interval == 0)) [
  | inl due ↦ let (q', same, _, _) = hello_sent junk g q in rw due (q', same)
  | inr other ↦ rw other (q, refl)
]

record Passed (h g' : Gateway) : Type 0 where
  quiet : IsQuiet g'
  next : g'.tick ≡ u64 (h.tick + 1)
  ctl : g'.ctl ≡ h.ctl
  stat : g'.stat ≡ h.stat

reported :
    (b : Bool) (id interval now : ℕ) (e : Edge)
    → IsEdge e
    → AllLive e
    → let r : Edge × List Report = if b then do_device_update id interval now e else (e, []) in
      IsEdge r.0 × AllLive r.0 × (r.0.catalog ≡ e.catalog)
reported false id interval now e v live = (v, live, refl)
reported true id interval now e v live =
    let (live', kept) = do_device_update-AllLive id interval now e v live in
    (do_device_update-IsEdge id interval now e v, live', kept)

-- A second ends without a fault.
second-Passed :
    (junk : List ℕ) (now : ℕ) (g : Gateway)
    → g.ctl.hello_interval ≢ 0
    → IsQuiet (checked junk g)
    → Returns (do_mgt_periodic junk now g) λ (_, g'). Passed (checked junk g) g'
unfolding do_mgt_periodic
second-Passed junk now g some_interval q =
    let h = checked junk g in
    let (e, run, (v, aged, kept)) =
      do_device_ageing-IsAged h.ctl.dev_age_interval now h.edge q.devs q.live in
    let live = IsAged-AllLive h.ctl.dev_age_interval now h.edge e aged kept q.live in
    let periodic = h.ctl.up_mode == edge_up_mode_attr_periodic in
    let r : Edge × List Report =
      if periodic then do_device_update h.ctl.scenerio_id h.ctl.up_interval now e else (e, []) in
    let (v', live', kept') = reported periodic h.ctl.scenerio_id h.ctl.up_interval now e v live in
    let there : (g.ctl.hello_interval == 0) ≡ false = ground (arith, some_interval) in
    (
      ((first junk g).0 ++ map to_app r.1, record h { edge = r.0; tick = u64 (h.tick + 1) }),
      rw (do_mgt_periodic, there, run) refl,
      record {
        quiet = record {
          memory = ap (λ (c : Catalog). c.mem) (kept' ∙ kept) ∙ q.memory;
          devs = v';
          live = live';
        };
        next = refl;
        ctl = refl;
        stat = refl;
      },
    )

-- A client that is offline stays so.
stays_offline :
    (nows junk : List ℕ) (g : Gateway)
    → IsQuiet g
    → g.ctl.hello_interval ≢ 0
    → g.ctl.status ≡ edge_status_offline
    → Returns (silent junk nows g) λ g'. g'.ctl.status ≡ edge_status_offline
unfolding silent check_timeout
stays_offline [] junk g q some_interval off = (g, refl, off)
stays_offline (now ∷ nows) junk g q some_interval off =
    let (q₁, ctl₁) = first-IsQuiet junk g q in
    let h = (first junk g).1 in
    let idle : (leb h.ctl.timeout_num h.stat.timeout && (h.ctl.status == edge_status_online))
        ≡ false =
      ground (arith, ap (λ (c : Control). c.status) ctl₁, off) in
    let unchanged : checked junk g ≡ h = rw (check_timeout, idle) refl in
    let ((out, g'), run, p) = second-Passed junk now g some_interval (check-IsQuiet h q₁).0 in
    let same : g'.ctl ≡ g.ctl = p.ctl ∙ ap (λ (x : Gateway). x.ctl) unchanged ∙ ctl₁ in
    let (last, run', off') =
      stays_offline nows junk g' p.quiet
        (subst (λ (c : Control). c.hello_interval ≢ 0) (sym same) some_interval)
        (ap (λ (c : Control). c.status) same ∙ off) in
    (last, rw (silent, run) run', off')

-- An online client behind the first two statements of a second: it has gone offline, or waits with the
-- hello counted, if there was one.
abbrev Waits : Gateway → Gateway → ℕ → Type 0
Waits g h due =
    ((h.ctl.status ≡ edge_status_offline) × (h.ctl.hello_interval ≡ g.ctl.hello_interval))
    ⊎ ((h.ctl ≡ g.ctl)
        × (h.stat.timeout ≡ g.stat.timeout + due)
        × (g.stat.timeout + due < g.ctl.timeout_num))

checked-Waits :
    (junk : List ℕ) (g : Gateway)
    → IsQuiet g
    → g.ctl.status ≡ edge_status_online
    → g.stat.timeout < g.ctl.timeout_num
    → g.ctl.timeout_num < 2 ^ 32
    → Waits g (checked junk g) (if g.tick % g.ctl.hello_interval == 0 then 1 else 0)
      × ((checked junk g).tick ≡ g.tick)
unfolding check_timeout
checked-Waits junk g q on early small = elim (Bool-cases (g.tick % g.ctl.hello_interval == 0)) [
  | inr other ↦
      let waiting : leb g.ctl.timeout_num g.stat.timeout ≡ false = ground (arith, early) in
      rw (other, waiting) (inr (refl, omega arith, omega (arith, early)), refl)
  | inl due ↦
      let h = after_hello junk g in
      let (q', ctl, tick, missed) = hello_sent junk g q in
      let on' : h.ctl.status ≡ edge_status_online = ap (λ (c : Control). c.status) ctl ∙ on in
      let num : h.ctl.timeout_num ≡ g.ctl.timeout_num = ap (λ (c : Control). c.timeout_num) ctl in
      let one : h.stat.timeout ≡ g.stat.timeout + 1 =
        missed ∙ rw on (omega (arith, early, small)) in
      elim (Bool-cases (leb h.ctl.timeout_num h.stat.timeout)) [
        | inl late ↦
            rw (due, late, on') (inl (refl, ap (λ (c : Control). c.hello_interval) ctl), tick)
        | inr waiting ↦ rw (due, waiting) (inr (ctl, one, ground (arith, waiting, num, one)), tick)
      ]
]

-- A client that is online, has missed less than `timeout_num` answers, has memory to send its hellos
-- from, and devices that are well formed and of products that have not been freed, gets through the
-- following seconds without a fault, and is offline once the hellos that are due in them and those
-- that it has missed before are `timeout_num`, if no message comes in between and the counter of the
-- seconds does not wrap.
pub silent-offline :
    (nows junk : List ℕ) (g : Gateway)
    → IsQuiet g
    → g.ctl.hello_interval ≢ 0
    → g.ctl.status ≡ edge_status_online
    → g.stat.timeout < g.ctl.timeout_num
    → g.ctl.timeout_num < 2 ^ 32
    → g.tick + length nows < 2 ^ 64
    → g.ctl.timeout_num ≤ g.stat.timeout + hellos_due g.ctl.hello_interval g.tick nows
    → Returns (silent junk nows g) λ g'. g'.ctl.status ≡ edge_status_offline
unfolding silent hellos_due
silent-offline [] junk g q some_interval on early small fits enough = absurd (omega arith)
silent-offline (now ∷ nows) junk g q some_interval on early small fits enough =
    let h = checked junk g in
    let (waits, tick) = checked-Waits junk g q on early small in
    let ((out, g'), run, p) =
      second-Passed junk now g some_interval
        (check-IsQuiet (first junk g).1 (first-IsQuiet junk g q).0).0 in
    elim waits [
      | inl (off, interval) ↦
          let interval' : g'.ctl.hello_interval ≡ g.ctl.hello_interval =
            ap (λ (c : Control). c.hello_interval) p.ctl ∙ interval in
          let (last, run', off') =
            stays_offline nows junk g' p.quiet (subst (λ n. n ≢ 0) (sym interval') some_interval)
              (ap (λ (c : Control). c.status) p.ctl ∙ off) in
          (last, rw (silent, run) run', off')
      | inr (ctl, missed, still) ↦
          let same : g'.ctl ≡ g.ctl = p.ctl ∙ ctl in
          let interval' : g'.ctl.hello_interval ≡ g.ctl.hello_interval =
            ap (λ (c : Control). c.hello_interval) same in
          let num : g'.ctl.timeout_num ≡ g.ctl.timeout_num =
            ap (λ (c : Control). c.timeout_num) same in
          let count = ap (λ x. x.timeout) p.stat ∙ missed in
          let next : g'.tick ≡ g.tick + 1 = p.next ∙ omega (arith, tick, fits) in
          let left : hellos_due g'.ctl.hello_interval g'.tick nows
              ≡ hellos_due g.ctl.hello_interval (g.tick + 1) nows =
            rw (interval', next) refl in
          let (last, run', off') =
            silent-offline nows junk g' p.quiet (subst (λ n. n ≢ 0) (sym interval') some_interval)
              (ap (λ (c : Control). c.status) same ∙ on) (omega (arith, count, num, still))
              (omega (arith, num, small)) (omega (arith, next, fits))
              (omega (arith, count, num, left, enough)) in
          (last, rw (silent, run) run', off')
    ]
