-- ===== src/Dev/Order.antt =====
-- The order of age of src/dev.c, where a device comes last.
use ece_lib.Base.{
  ℕ, ◌+◌, ◌≡◌, refl, sym, ap, ◌∙◌, subst, inl, inr, true, false, none, List, [], ◌∷◌, ◌++◌, arith,
  Bool-cases,
}
use ece_lib.HashMap.Keys.{int_key, str_key, IsOid}
use ece_lib.HashMap.{hash_map_get}
use ece_lib.HashMap.Chain.{is_some, to_nat}
use ece_lib.HashMap.Put.{Written}
use ece_lib.Dev.{Dev, drop_age}
use ece_lib.Dev.Alive.{Devs, IsLined, occurs, occurs_drop}

pub put-IsLined :
    (m : Devs) (oid : List ℕ) (d : Dev) (m' : Devs) (ages : List (List ℕ))
    → Written m oid d m'
    → IsLined m ages
    → IsLined m' ages
put-IsLined m oid d m' [] w l = tt
put-IsLined m oid d m' (x ∷ rest) w (ix, there, once, l) = (
  ix,
  elim (Bool-cases (str_key.same oid x)) [
    | inl here ↦ ap is_some (w.reads x ix) ∙ rw here refl
    | inr other ↦ ap is_some (w.reads x ix) ∙ rw other there
  ],
  once,
  put-IsLined m oid d m' rest w l,
)

pub occurs-append :
    (x oid : List ℕ) (ages : List (List ℕ))
    → occurs x (ages ++ (oid ∷ [])) ≡ occurs x ages + to_nat (str_key.same x oid)
occurs-append x oid [] = omega arith
occurs-append x oid (y ∷ ages) = omega (arith, occurs-append x oid ages)

-- An identifier that is not in the order may be appended to it.
pub append-IsLined :
    (m : Devs) (oid : List ℕ) (ages : List (List ℕ))
    → IsOid oid
    → is_some (hash_map_get m oid) ≡ true
    → occurs oid ages ≡ 0
    → IsLined m ages
    → IsLined m (ages ++ (oid ∷ []))
append-IsLined m oid [] ik there away l = (ik, there, refl, tt)
append-IsLined m oid (x ∷ rest) ik there away (ix, x_there, once, l) =
    let other : str_key.same x oid ≡ false = elim (Bool-cases (str_key.same x oid)) [
      | inr differ ↦ differ
      | inl here ↦
          let e : oid ≡ x = sym ((str_key.same_iff x oid ix ik).0 here) in
          absurd (ground (arith, to_nat, (str_key.same_iff oid x ik ix).1 e))
    ] in
    (
      ix,
      x_there,
      occurs-append x oid rest ∙ rw (other, once) refl,
      append-IsLined m oid rest ik there (omega (arith, away)) l,
    )

-- An identifier that no device has is not in the order.
pub occurs_absent :
    (m : Devs) (oid : List ℕ) (ages : List (List ℕ))
    → IsOid oid
    → hash_map_get m oid ≡ none
    → IsLined m ages
    → occurs oid ages ≡ 0
occurs_absent m oid [] ik absent l = refl
occurs_absent m oid (x ∷ rest) ik absent (ix, there, once, l) =
    elim (Bool-cases (str_key.same oid x)) [
      | inl here ↦
          let e = (str_key.same_iff oid x ik ix).0 here in
          absurd
            (ground (arith, subst (λ k. is_some (hash_map_get m k) ≡ true) (sym e) there, absent))
      | inr other ↦ rw other (omega (arith, occurs_absent m oid rest ik absent l))
    ]

-- `drop_age` takes the identifier out.
pub drop_age-gone :
    (m : Devs) (oid : List ℕ) (ages : List (List ℕ))
    → IsOid oid
    → IsLined m ages
    → occurs oid (drop_age oid ages) ≡ 0
unfolding drop_age
drop_age-gone m oid [] ik l = refl
drop_age-gone m oid (x ∷ rest) ik (ix, there, once, l) = elim (Bool-cases (str_key.same oid x)) [
  | inl here ↦
      rw here (subst (λ q. occurs q rest ≡ 0) (sym ((str_key.same_iff oid x ik ix).0 here)) once)
  | inr other ↦ rw other (rw other (omega (arith, drop_age-gone m oid rest ik l)))
]

pub rest-IsLined :
    (m : Devs) (oid : List ℕ) (ages : List (List ℕ))
    → IsLined m ages
    → IsLined m (drop_age oid ages)
unfolding drop_age
rest-IsLined m oid [] l = tt
rest-IsLined m oid (x ∷ rest) (ix, there, once, l) = elim (Bool-cases (str_key.same oid x)) [
  | inl here ↦ rw here l
  | inr other ↦
      rw other (ix, there, omega (arith, occurs_drop x oid rest), rest-IsLined m oid rest l)
]
