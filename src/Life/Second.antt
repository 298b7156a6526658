-- ===== src/Life/Second.antt =====
-- The work of every second in src/mgt.c and src/dev.c, and what it leaves as it is.
use ece_lib.Base.{
  ℕ, ◌%◌, ◌-◌, refl, ◌∙◌, Bool, true, false, ◌&&◌, List, [], ltb, leb, ◌==◌, if◌then◌else◌,
  Bool-cases, inl, inr,
}
use ece_lib.Machine.{Memory, malloc, WhenOk, faults, returns, then-WhenOk, if-WhenOk}
use ece_lib.Pdt.{Catalog}
use ece_lib.Dev.{Edge}
use ece_lib.Dev.Ageing.{Report, do_device_update}
use ece_lib.Mgt.{Control, Gateway}
use ece_lib.Mgt.Protocol.{edge_status_online, edge_up_mode_attr_periodic}
use ece_lib.Mgt.Periodic.{Out, mgt_send_hello_msg, check_timeout, do_mgt_periodic}
use ece_lib.Life.Kept.{SameSettings, same, do_device_ageing-Kept}

both : {a b c : Control} → SameSettings a b → SameSettings b c → SameSettings a c
both s t = record {
  hello = t.hello ∙ s.hello;
  timeout = t.timeout ∙ s.timeout;
  mode = t.mode ∙ s.mode;
  interval = t.interval ∙ s.interval;
}

module _ (P : Catalog → Type 0)
    (free : (c : Catalog) → P c → (mem : Memory) → P (record c { mem = mem })) where
  -- The gateway behind a hello, and behind the check for missed answers.
  mgt_send_hello_msg-Kept :
      (junk : List ℕ) (g : Gateway)
      → P g.edge.catalog
      → P ((mgt_send_hello_msg junk g).1.edge.catalog)
        × SameSettings g.ctl (mgt_send_hello_msg junk g).1.ctl
  unfolding mgt_send_hello_msg
  mgt_send_hello_msg-Kept junk g v = elim (Bool-cases (malloc g.edge.catalog.mem).0) [
    | inl got ↦ rw got (free g.edge.catalog v (malloc g.edge.catalog.mem).1, same g.ctl)
    | inr out ↦ rw out (free g.edge.catalog v (malloc g.edge.catalog.mem).1, same g.ctl)
  ]

  check_timeout-Kept :
      (g : Gateway)
      → P g.edge.catalog
      → P (check_timeout g).edge.catalog × SameSettings g.ctl (check_timeout g).ctl
  unfolding check_timeout
  check_timeout-Kept g v =
      elim (Bool-cases
        (leb g.ctl.timeout_num g.stat.timeout && (g.ctl.status == edge_status_online))) [
          | inl missed ↦
              rw missed (v, record { hello = refl; timeout = refl; mode = refl; interval = refl })
          | inr answered ↦ rw answered (v, same g.ctl)
        ]

  do_device_update-Kept :
      (scenerio_id interval now : ℕ) (e : Edge)
      → P e.catalog
      → P (do_device_update scenerio_id interval now e).0.catalog
  unfolding do_device_update
  do_device_update-Kept scenerio_id interval now e v = elim (Bool-cases (e.last_update == 0)) [
    | inl first ↦ rw first v
    | inr later ↦ elim (Bool-cases (ltb interval (now - e.last_update))) [
      | inl due ↦ rw (later, due) v
      | inr early ↦ rw (later, early) v
    ]
  ]

  first-Kept :
      (b : Bool) (junk : List ℕ) (g : Gateway)
      → P g.edge.catalog
      → let r : List Out × Gateway = if b then mgt_send_hello_msg junk g else ([], g) in
        P r.1.edge.catalog × SameSettings g.ctl r.1.ctl
  first-Kept true junk g v = mgt_send_hello_msg-Kept junk g v
  first-Kept false junk g v = (v, same g.ctl)

  last-Kept :
      (b : Bool) (scenerio_id interval now : ℕ) (e : Edge)
      → P e.catalog
      → let r : Edge × List Report =
          if b then do_device_update scenerio_id interval now e else (e, []) in
        P r.0.catalog
  last-Kept true scenerio_id interval now e v = do_device_update-Kept scenerio_id interval now e v
  last-Kept false scenerio_id interval now e v = v

  -- The work of a second takes memory, and changes no setting.
  pub do_mgt_periodic-Kept :
      (junk : List ℕ) (now : ℕ) (g : Gateway)
      → P g.edge.catalog
      → WhenOk
          (λ (_, g'). P g'.edge.catalog × SameSettings g.ctl g'.ctl)
          (do_mgt_periodic junk now g)
  unfolding do_mgt_periodic
  do_mgt_periodic-Kept junk now g v =
      let due = g.tick % g.ctl.hello_interval == 0 in
      let r₁ : List Out × Gateway = if due then mgt_send_hello_msg junk g else ([], g) in
      let (v₁, s₁) = first-Kept due junk g v in
      let (v₂, s₂) = check_timeout-Kept r₁.1 v₁ in
      let g₂ = check_timeout r₁.1 in
      if-WhenOk (g.ctl.hello_interval == 0) faults (
        then-WhenOk (do_device_ageing-Kept P free g₂.ctl.dev_age_interval now g₂.edge v₂) λ e v₃.
          returns (
            last-Kept (g₂.ctl.up_mode == edge_up_mode_attr_periodic) g₂.ctl.scenerio_id
                g₂.ctl.up_interval now e v₃,
            both s₁ s₂,
          ))
