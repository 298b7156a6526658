-- ===== src/Dev/Exact.antt =====
-- Which devices the ageing of src/dev.c leaves, where the order of age is the order of time.
use ece_lib.Base.{
  ℕ, ◌-◌, ◌<◌, ◌≤◌, ◌≡◌, ◌≢◌, refl, sym, ap, ◌∙◌, subst, inl, inr, true, false, Option, none, some,
  List, [], ◌∷◌, arith, ltb, lt→ltb, ◌==◌, if◌then◌else◌, Bool-cases, Option-cases,
}
use ece_lib.Machine.{WhenOk, faults, returns, then-WhenOk, at_ok, Returns}
use ece_lib.HashMap.Keys.{str_key, IsOid}
use ece_lib.HashMap.{hash_map_get}
use ece_lib.HashMap.Chain.{is_some, to_nat}
use ece_lib.HashMap.Remove.{Erased}
use ece_lib.Dev.{Dev, Edge}
use ece_lib.Dev.Ageing.{age_loop, do_device_ageing}
use ece_lib.Dev.Alive.{
  Devs, occurs, IsEdge, IsLined, AllLive, del_dev_internal-WhenGone, IsLined-Erased, swap_false,
}
use ece_lib.Dev.Aged.{do_device_ageing-IsAged, IsAged}

abbrev pub time_of : Option Dev → ℕ
time_of none = 0
time_of (some d) = d.ts

-- The devices in the order were heard of one after the other, from `from` on.
abbrev pub Ascending : Devs → (from : ℕ) → List (List ℕ) → Type 0
Ascending m from [] = Unit
Ascending m from (oid ∷ rest) =
    (from ≤ time_of (hash_map_get m oid)) × Ascending m (time_of (hash_map_get m oid)) rest

-- The device if it has been heard of within the interval.
abbrev pub if_young : (interval now : ℕ) → Option Dev → Option Dev
if_young interval now none = none
if_young interval now (some d) = if ltb interval (now - d.ts) then none else some d

abbrev AllYoung : (interval now : ℕ) → Devs → Type 0
AllYoung interval now m =
    (q : List ℕ) (d : Dev) → IsOid q → hash_map_get m q ≡ some d → ltb interval (now - d.ts) ≡ false

abbrev Every : Devs → List (List ℕ) → Type 0
Every m oids = (q : List ℕ) → IsOid q → is_some (hash_map_get m q) ≡ true → 0 < occurs q oids

-- Whatever comes later in the order is no older.
pub no_older :
    (m : Devs) (from : ℕ) (oids : List (List ℕ)) (q : List ℕ)
    → IsOid q
    → IsLined m oids
    → Ascending m from oids
    → 0 < occurs q oids
    → from ≤ time_of (hash_map_get m q)
no_older m from [] q iq l a there = absurd (omega arith)
no_older m from (x ∷ rest) q iq (ix, _, _, l) (early, a) there =
    elim (Bool-cases (str_key.same q x)) [
      | inl here ↦
          subst (λ k. from ≤ time_of (hash_map_get m k)) (sym ((str_key.same_iff q x iq ix).0 here))
            early
      | inr other ↦
          let later =
            no_older m (time_of (hash_map_get m x)) rest q iq l a
              (omega (arith, there, ap to_nat other)) in
          omega (arith, early, later)
    ]

-- The order without a device of which it has no other entry.
Ascending-Erased :
    (m m' : Devs) (oid : List ℕ) (from from' : ℕ) (oids : List (List ℕ))
    → from' ≤ from
    → Erased m oid m'
    → occurs oid oids ≡ 0
    → IsLined m oids
    → Ascending m from oids
    → Ascending m' from' oids
Ascending-Erased m m' oid from from' [] le e away l a = tt
Ascending-Erased m m' oid from from' (x ∷ rest) le e away (ix, _, _, l) (early, a) =
    let other : str_key.same oid x ≡ false = ground (arith, to_nat) in
    let unchanged : hash_map_get m' x ≡ hash_map_get m x = e.reads x ix ∙ rw other refl in
    let same : time_of (hash_map_get m' x) ≡ time_of (hash_map_get m x) = ap time_of unchanged in
    (
      omega (arith, same),
      Ascending-Erased m m' oid (time_of (hash_map_get m x)) (time_of (hash_map_get m' x)) rest
          (omega (arith, same)) e (omega arith) l a,
    )

age_loop-AllYoung :
    (interval now from : ℕ) (oids : List (List ℕ)) (e : Edge)
    → IsEdge e
    → IsLined e.devs oids
    → Ascending e.devs from oids
    → Every e.devs oids
    → WhenOk (λ e'. AllYoung interval now e'.devs) (age_loop interval now oids e)
unfolding age_loop
age_loop-AllYoung interval now from [] e v l a all =
    returns λ q d iq found. absurd (omega (arith, all q iq (ap is_some found)))
age_loop-AllYoung interval now from (oid ∷ rest) e v (ik, is_there, once, l) (early, a) all =
    elim (Option-cases (hash_map_get e.devs oid)) [
      | inl absent ↦ rw (age_loop, absent) faults
      | inr (d, there) ↦ elim (Bool-cases (ltb interval (now - d.ts))) [
        | inr young ↦
            rw (age_loop, there, young)
              (returns λ q x iq found.
                let later =
                  no_older e.devs (time_of (hash_map_get e.devs oid)) (oid ∷ rest) q iq
                    (ik, is_there, once, l) (omega arith, a) (all q iq (ap is_some found)) in
                ground (arith, young, later, ap time_of there, ap time_of found))
        | inl old ↦
            rw (age_loop, there, old)
              (then-WhenOk (del_dev_internal-WhenGone oid d e v ik there) λ e₁ gone.
                let from' = time_of (hash_map_get e.devs oid) in
                age_loop-AllYoung interval now from' rest e₁ gone.is
                  (IsLined-Erased e.devs e₁.devs oid rest ik gone.erased once l)
                  (Ascending-Erased e.devs e₁.devs oid from' from' rest (omega arith) gone.erased
                    once l a)
                  (λ q iq found. elim (Bool-cases (str_key.same oid q)) [
                    | inl here ↦ absurd (ground (arith, gone.erased.reads q iq, here, found))
                    | inr other ↦
                        let was : is_some (hash_map_get e.devs q) ≡ true =
                          sym (ap is_some (gone.erased.reads q iq ∙ rw other refl)) ∙ found in
                        omega (arith, all q iq was, ap to_nat (swap_false oid q ik iq other))
                  ]))
      ]
    ]

-- A device that is as it was, or has gone for its age, where all that are left are young.
aged-if_young :
    (interval now : ℕ) (m m' : Devs) (q : List ℕ)
    → IsOid q
    → IsAged interval now m m'
    → AllYoung interval now m'
    → hash_map_get m' q ≡ if_young interval now (hash_map_get m q)
aged-if_young interval now m m' q iq aged young = elim (aged.at q iq) [
  | inr (d, was, old, gone) ↦ rw (was, lt→ltb interval (now - d.ts) old) gone
  | inl same ↦ elim (Option-cases (hash_map_get m q)) [
    | inl absent ↦ rw absent (same ∙ absent)
    | inr (d, there) ↦
        let left : hash_map_get m' q ≡ some d = same ∙ there in rw (there, young q d iq left) left
  ]
]

-- Where the devices are well formed, none of their products has been freed, the order of age is the
-- order of time and the ageing is due, it ends without a fault, and reading the devices then gives
-- each that was heard of within the interval, as it was, and no other.
pub do_device_ageing-if_young :
    (interval now : ℕ) (e : Edge)
    → IsEdge e
    → AllLive e
    → Ascending e.devs 0 e.ages
    → e.last_ageing ≢ 0
    → 60 < now - e.last_ageing
    → Returns (do_device_ageing interval now e) λ e'.
      (q : List ℕ)
      → IsOid q
      → hash_map_get e'.devs q ≡ if_young interval now (hash_map_get e.devs q)
unfolding do_device_ageing
do_device_ageing-if_young interval now e v live a later due =
    let (e', run, (_, aged, _)) = do_device_ageing-IsAged interval now e v live in
    let not_first : (e.last_ageing == 0) ≡ false = ground arith in
    let young : WhenOk (λ e'. AllYoung interval now e'.devs) (do_device_ageing interval now e) =
      rw (do_device_ageing, not_first, lt→ltb 60 (now - e.last_ageing) due)
        (then-WhenOk (age_loop-AllYoung interval now 0 e.ages e v v.lined a v.every)
          λ e₁ all. returns all) in
    (e', run, λ q iq. aged-if_young interval now e.devs e'.devs q iq aged (at_ok young run))
