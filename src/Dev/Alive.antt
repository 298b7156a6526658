-- ===== src/Dev/Alive.antt =====
-- The devices of src/dev.c and their order of age: what every operation keeps.
use ece_lib.Base.{
  ℕ, ◌+◌, ◌<◌, ◌≤◌, ◌≡◌, refl, sym, ap, ◌∙◌, subst, inl, inr, Bool, true, false, not, ◌&&◌, some,
  List, [], ◌∷◌, arith, Bool-cases,
}
use ece_lib.Machine.{Returns, WhenOk, faults, Returns-WhenOk}
use ece_lib.HashMap.Keys.{int_key, str_key, IsOid}
use ece_lib.HashMap.{HashMap, hash_map_get}
use ece_lib.HashMap.Chain.{is_some, to_nat}
use ece_lib.HashMap.Invariant.{IsValid}
use ece_lib.HashMap.Remove.{Erased, remove-Erased}
use ece_lib.Dev.{
  Dev, Edge, is_live, at_head, list_at, drop_age, drop_member, leave_product, del_dev_internal,
}
use ece_lib.Dev.Clear.{del_dev_attrs-returns}

abbrev pub Devs : Type 0
Devs = HashMap (List ℕ) Dev

-- How often an identifier stands in the order.
abbrev pub occurs : List ℕ → List (List ℕ) → ℕ
occurs oid [] = 0
occurs oid (x ∷ rest) = to_nat (str_key.same oid x) + occurs oid rest

-- Each identifier in the order is that of a device, and stands there once.
abbrev pub IsLined : Devs → List (List ℕ) → Type 0
IsLined m [] = Unit
IsLined m (oid ∷ rest) =
    IsOid oid × is_some (hash_map_get m oid) ≡ true × occurs oid rest ≡ 0 × IsLined m rest

-- A device is stored under its identifier, with a well-formed map of values.
pub record IsDev (oid : List ℕ) (d : Dev) : Type 0 where
  pub own : d.oid ≡ oid
  pub attrs : IsValid d.attr_map

-- The map of the devices, and the order of age with the identifiers of just these.
pub record AreDevs (m : Devs) (ages : List (List ℕ)) : Type 0 where
  pub devs : IsValid m
  pub each : (oid : List ℕ) (d : Dev) → IsOid oid → hash_map_get m oid ≡ some d → IsDev oid d
  pub lined : IsLined m ages
  pub every : (oid : List ℕ) → IsOid oid → is_some (hash_map_get m oid) ≡ true → 0 < occurs oid ages

abbrev pub IsEdge : Edge → Type 0
IsEdge e = AreDevs e.devs e.ages

-- The products of the devices have not been freed.
abbrev pub AllLive : Edge → Type 0
AllLive e =
    (oid : List ℕ) (d : Dev)
    → IsOid oid
    → hash_map_get e.devs oid ≡ some d
    → is_live d.pdt e.catalog.pdts ≡ true

-- An order without an identifier stands as it is when that device goes.
pub IsLined-Erased :
    (m m' : Devs) (oid : List ℕ) (ages : List (List ℕ))
    → IsOid oid
    → Erased m oid m'
    → occurs oid ages ≡ 0
    → IsLined m ages
    → IsLined m' ages
IsLined-Erased m m' oid [] ik e away l = tt
IsLined-Erased m m' oid (x ∷ rest) ik e away (ix, there, once, l) =
    let other : str_key.same oid x ≡ false = ground (arith, to_nat) in
    (
      ix,
      ap is_some (e.reads x ix) ∙ rw other there,
      once,
      IsLined-Erased m m' oid rest ik e (omega arith) l,
    )

pub occurs_drop :
    (x oid : List ℕ) (ages : List (List ℕ)) → occurs x (drop_age oid ages) ≤ occurs x ages
unfolding drop_age
occurs_drop x oid [] = omega arith
occurs_drop x oid (y ∷ ages) = elim (Bool-cases (str_key.same oid y)) [
  | inl here ↦ rw here (omega arith)
  | inr other ↦ rw other (omega (arith, occurs_drop x oid ages))
]

pub swap_false :
    (a b : List ℕ) → IsOid a → IsOid b → str_key.same a b ≡ false → str_key.same b a ≡ false
swap_false a b ia ib h = elim (Bool-cases (str_key.same b a)) [
  | inr differ ↦ differ
  | inl here ↦
      let back = (str_key.same_iff a b ia ib).1 (sym ((str_key.same_iff b a ib ia).0 here)) in
      absurd (ground (arith, h, back))
]

-- No other identifier is dropped.
pub occurs_drop_other :
    (m : Devs) (q oid : List ℕ) (ages : List (List ℕ))
    → IsOid q
    → IsOid oid
    → str_key.same oid q ≡ false
    → IsLined m ages
    → occurs q (drop_age oid ages) ≡ occurs q ages
unfolding drop_age
occurs_drop_other m q oid [] iq ik differ l = refl
occurs_drop_other m q oid (x ∷ rest) iq ik differ (ix, there, once, l) =
    elim (Bool-cases (str_key.same oid x)) [
      | inl here ↦
          let x_other : str_key.same q x ≡ false =
            subst (λ k. str_key.same q k ≡ false) ((str_key.same_iff oid x ik ix).0 here)
              (swap_false oid q ik iq differ) in
          rw (here, x_other) (omega arith)
      | inr other ↦
          rw other (
            ap (λ n. to_nat (str_key.same q x) + n) (occurs_drop_other m q oid rest iq ik differ l))
    ]

drop_age-IsLined :
    (m m' : Devs) (oid : List ℕ) (ages : List (List ℕ))
    → IsOid oid
    → Erased m oid m'
    → IsLined m ages
    → IsLined m' (drop_age oid ages)
unfolding drop_age
drop_age-IsLined m m' oid [] ik e l = tt
drop_age-IsLined m m' oid (x ∷ rest) ik e (ix, there, once, l) =
    elim (Bool-cases (str_key.same oid x)) [
      | inl here ↦ rw here (
          let away =
            subst (λ q. occurs q rest ≡ 0) (sym ((str_key.same_iff oid x ik ix).0 here)) once in
          IsLined-Erased m m' oid rest ik e away l)
      | inr other ↦ rw other (
        ix,
        ap is_some (e.reads x ix) ∙ rw other there,
        omega (arith, occurs_drop x oid rest, once),
        drop_age-IsLined m m' oid rest ik e l,
      )
    ]

-- What is there after a removal was there before.
pub was_there :
    (m m' : Devs) (oid q : List ℕ) (d : Dev)
    → Erased m oid m'
    → IsOid q
    → hash_map_get m' q ≡ some d
    → hash_map_get m q ≡ some d
was_there m m' oid q d e iq found = elim (Bool-cases (str_key.same oid q)) [
  | inl here ↦ absurd (ground (arith, e.reads q iq, here, found))
  | inr other ↦ sym (e.reads q iq ∙ rw other refl) ∙ found
]

and_not : (b c : Bool) → c ≡ true → (b && not c) ≡ false
and_not true c h = rw h refl
and_not false c h = refl

-- The edge without a device.
pub record IsGone (e : Edge) (oid : List ℕ) (e' : Edge) : Type 0 where
  pub is : IsEdge e'
  pub erased : Erased e.devs oid e'.devs
  pub kept : e'.catalog ≡ e.catalog

pub safe-IsGone :
    (oid : List ℕ) (d : Dev) (e : Edge)
    → IsEdge e
    → IsOid oid
    → hash_map_get e.devs oid ≡ some d
    → (at_head d.oid (list_at d.pdt e.members) && not (is_live d.pdt e.catalog.pdts)) ≡ false
    → Returns (del_dev_internal d e) (IsGone e oid)
unfolding del_dev_internal leave_product
safe-IsGone oid d e v ik there safe =
    let is_dev = v.each oid d ik there in
    let (m, cleared, _) = del_dev_attrs-returns d.attr_map is_dev.attrs in
    let (devs', run, erased) = remove-Erased e.devs v.devs oid ik d there in
    (
      record e { ages = drop_age oid e.ages; devs = devs'; members = drop_member d.oid e.members },
      rw (del_dev_internal, safe, cleared, is_dev.own, run) refl,
      record {
        is = record {
          devs = erased.valid;
          each = λ q x iq found. v.each q x iq (was_there e.devs devs' oid q x erased iq found);
          lined = drop_age-IsLined e.devs devs' oid e.ages ik erased v.lined;
          every = λ q iq found. elim (Bool-cases (str_key.same oid q)) [
            | inl here ↦ absurd (ground (arith, erased.reads q iq, here, found))
            | inr other ↦
                let was : is_some (hash_map_get e.devs q) ≡ true =
                  sym (ap is_some (erased.reads q iq ∙ rw other refl)) ∙ found in
                subst (λ n. 0 < n) (sym (occurs_drop_other e.devs q oid e.ages iq ik other v.lined))
                  (v.every q iq was)
          ];
        };
        erased = erased;
        kept = refl;
      },
    )

pub del_dev_internal-IsGone :
    (oid : List ℕ) (d : Dev) (e : Edge)
    → IsEdge e
    → IsOid oid
    → hash_map_get e.devs oid ≡ some d
    → is_live d.pdt e.catalog.pdts ≡ true
    → Returns (del_dev_internal d e) (IsGone e oid)
del_dev_internal-IsGone oid d e v ik there live =
    safe-IsGone oid d e v ik there (and_not (at_head d.oid (list_at d.pdt e.members)) _ live)

-- Whether or not the product has been freed: where the deletion ends normally, the device is gone.
pub del_dev_internal-WhenGone :
    (oid : List ℕ) (d : Dev) (e : Edge)
    → IsEdge e
    → IsOid oid
    → hash_map_get e.devs oid ≡ some d
    → WhenOk (IsGone e oid) (del_dev_internal d e)
unfolding del_dev_internal leave_product
del_dev_internal-WhenGone oid d e v ik there =
    elim (Bool-cases
      (at_head d.oid (list_at d.pdt e.members) && not (is_live d.pdt e.catalog.pdts))) [
        | inl freed ↦ rw (del_dev_internal, freed) faults
        | inr safe ↦ Returns-WhenOk (safe-IsGone oid d e v ik there safe)
      ]
