-- ===== src/Dev/Aged.antt =====
-- The ageing of the devices in src/dev.c, `do_device_ageing`.
use ece_lib.Base.{
  ℕ, ◌-◌, ◌<◌, ◌≡◌, refl, ◌∙◌, subst, ◌⊎◌, inl, inr, none, some, List, [], ◌∷◌, arith, ltb, ltb→lt,
  ◌==◌, Bool-cases, Option-cases,
}
use ece_lib.Machine.{Returns}
use ece_lib.HashMap.Keys.{str_key, IsOid}
use ece_lib.HashMap.{hash_map_get}
use ece_lib.Dev.{Dev, Edge}
use ece_lib.Dev.Ageing.{age_loop, do_device_ageing}
use ece_lib.Dev.Alive.{
  Devs, IsEdge, IsLined, AllLive, IsGone, del_dev_internal-IsGone, IsLined-Erased, was_there,
}

-- A device stays as it was, or it is gone, and had not been heard of for longer than the interval.
pub record IsAged (interval now : ℕ) (before after : Devs) : Type 0 where
  pub at :
      (q : List ℕ)
      → IsOid q
      → (hash_map_get after q ≡ hash_map_get before q)
        ⊎ ((d : Dev) × (hash_map_get before q ≡ some d)
            × (interval < now - d.ts)
            × (hash_map_get after q ≡ none))

same-IsAged : (interval now : ℕ) (m : Devs) → IsAged interval now m m
same-IsAged interval now m = record { at = λ q iq. inl refl }

-- A device that is old goes first, and then others do.
gone-IsAged :
    (interval now : ℕ) (oid : List ℕ) (d : Dev) (e e₁ : Edge) (after : Devs)
    → IsOid oid
    → hash_map_get e.devs oid ≡ some d
    → interval < now - d.ts
    → IsGone e oid e₁
    → IsAged interval now e₁.devs after
    → IsAged interval now e.devs after
gone-IsAged interval now oid d e e₁ after ik there old gone rest = record {
  at = λ q iq. elim (rest.at q iq) [
    | inl same ↦ elim (Bool-cases (str_key.same oid q)) [
      | inl here ↦
          let is_oid : oid ≡ q = (str_key.same_iff oid q ik iq).0 here in
          inr (
            d,
            subst (λ k. hash_map_get e.devs k ≡ some d) is_oid there,
            old,
            same ∙ gone.erased.reads q iq ∙ rw here refl,
          )
      | inr other ↦ inl (same ∙ gone.erased.reads q iq ∙ rw other refl)
    ]
    | inr (x, was, older, now_none) ↦
        inr (x, was_there e.devs e₁.devs oid q x gone.erased iq was, older, now_none)
  ];
}

gone-AllLive : (e : Edge) (oid : List ℕ) (e₁ : Edge) → IsGone e oid e₁ → AllLive e → AllLive e₁
gone-AllLive e oid e₁ gone live q x iq found =
    rw (gone.kept) (live q x iq (was_there e.devs e₁.devs oid q x gone.erased iq found))

age_loop-IsAged :
    (interval now : ℕ) (oids : List (List ℕ)) (e : Edge)
    → IsEdge e
    → AllLive e
    → IsLined e.devs oids
    → Returns
        (age_loop interval now oids e)
        λ e'. IsEdge e' × IsAged interval now e.devs e'.devs × (e'.catalog ≡ e.catalog)
unfolding age_loop
age_loop-IsAged interval now [] e v live l = (e, refl, (v, same-IsAged interval now e.devs, refl))
age_loop-IsAged interval now (oid ∷ rest) e v live (ik, is_there, once, l) =
    elim (Option-cases (hash_map_get e.devs oid)) [
      | inl absent ↦ absurd (ground (arith, rw absent at is_there))
      | inr (d, there) ↦ elim (Bool-cases (ltb interval (now - d.ts))) [
        | inr young ↦
            (e, rw (age_loop, there, young) refl, (v, same-IsAged interval now e.devs, refl))
        | inl old ↦
            let (e₁, run, gone) =
              del_dev_internal-IsGone oid d e v ik there (live oid d ik there) in
            let (e', run', (v', aged, kept)) =
              age_loop-IsAged interval now rest e₁ gone.is (gone-AllLive e oid e₁ gone live)
                (IsLined-Erased e.devs e₁.devs oid rest ik gone.erased once l) in
            (
              e',
              rw (age_loop, there, old, run) run',
              (
                v',
                gone-IsAged interval now oid d e e₁ e'.devs ik there
                    (ltb→lt interval (now - d.ts) old) gone aged,
                kept ∙ gone.kept,
              ),
            )
      ]
    ]

-- Where the devices and their order of age are well formed and no product of a device has been freed, the
-- ageing ends without a fault and leaves them well formed; each device is as it was, or is gone and
-- had not been heard of for longer than the interval.
pub do_device_ageing-IsAged :
    (interval now : ℕ) (e : Edge)
    → IsEdge e
    → AllLive e
    → Returns
        (do_device_ageing interval now e)
        λ e'. IsEdge e' × IsAged interval now e.devs e'.devs × (e'.catalog ≡ e.catalog)
unfolding do_device_ageing
do_device_ageing-IsAged interval now e v live = elim (Bool-cases (e.last_ageing == 0)) [
  | inl first ↦ (
    record e { last_ageing = now },
    rw (do_device_ageing, first) refl,
    (v, same-IsAged interval now e.devs, refl),
  )
  | inr later ↦ elim (Bool-cases (ltb 60 (now - e.last_ageing))) [
    | inr early ↦
        (e, rw (do_device_ageing, later, early) refl, (v, same-IsAged interval now e.devs, refl))
    | inl due ↦
        let (e', run, (v', aged, kept)) = age_loop-IsAged interval now e.ages e v live v.lined in
        (
          record e' { last_ageing = now },
          rw (do_device_ageing, later, due, run) refl,
          (v', aged, kept),
        )
  ]
]
