-- ===== src/HashMap/Sum.antt =====
-- Sums over the values of a map of lib/hash_map.c, and how `hash_map_put` and `hash_map_remove`
-- change them.
use ece_lib.Base.{
  ℕ, zero, suc, ◌+◌, ◌-◌, ◌≤◌, ◌<◌, ◌≡◌, refl, ap, inl, inr, Option, none, some, List, [], ◌∷◌,
  ◌++◌, arith, length, set, replicate, Option-cases, List-cases,
}
use ece_lib.LinkedList.{LinkedList, linked_list_prepend}
use ece_lib.HashMap.Keys.{HashKey}
use ece_lib.HashMap.{
  Chain, Bucket, HashMap, pairs, all_pairs, find, assign, unlink, bucket_of, hash_map_init,
  hash_map_get, hash_map_put, hash_map_remove,
}
use ece_lib.HashMap.Chain.{unlink-none, assign-none, find-eq-none}
use ece_lib.HashMap.Invariant.{chain_at, IsValid, home, home-lt, written}
use ece_lib.HashMap.Put.{home_list, list-items, put-eq_found, put-eq_new}
use ece_lib.HashMap.Remove.{remove-eq, remove-Erased}

abbrev pub weight {ℓ} : {V : Type ℓ} → (V → ℕ) → Option V → ℕ
weight w none = 0
weight w (some x) = w x

module _ {K V : Type 0} (w : V → ℕ) where
  abbrev pub sum_pairs : Chain K V → ℕ
  sum_pairs [] = 0
  sum_pairs ((_, x) ∷ c) = w x + sum_pairs c

  -- The sum of the weights of all values.
  unfoldable pub total : HashMap K V → ℕ
  total m = sum_pairs (all_pairs m.table)

  sum_pairs-append : (a b : Chain K V) → sum_pairs (a ++ b) ≡ sum_pairs a + sum_pairs b
  sum_pairs-append [] b = omega arith
  sum_pairs-append (e ∷ a) b = omega (arith, sum_pairs-append a b)

  sum_pairs-set :
      (t : List (Bucket K V)) (i : ℕ) (b : Bucket K V)
      → i < length t
      → sum_pairs (all_pairs (set t i b)) + sum_pairs (chain_at t i)
        ≡ sum_pairs (all_pairs t) + sum_pairs (pairs b)
  sum_pairs-set [] i b h = absurd (omega arith)
  sum_pairs-set (x ∷ t) zero b h = simp sum_pairs-append (omega arith)
  sum_pairs-set (x ∷ t) (suc i) b h =
      simp sum_pairs-append (omega (arith, sum_pairs-set t i b (omega arith)))

module _ (K V : Type 0) (w : V → ℕ) where
  sum_pairs-replicate : (n : ℕ) → sum_pairs w (all_pairs {K = K} {V = V} (replicate n none)) ≡ 0
  sum_pairs-replicate zero = refl
  sum_pairs-replicate (suc n) = sum_pairs-replicate n

  pub total-init : (n : ℕ) → total w (hash_map_init {K = K} {V = V} n) ≡ 0
  unfolding total hash_map_init
  total-init n = sum_pairs-replicate n

module _ {K V : Type 0} ⦃key : HashKey K⦄ (w : V → ℕ) where
  sum_pairs-assign :
      (k : K) (x : V) (c c' : Chain K V)
      → assign k x c ≡ some c'
      → sum_pairs w c' + weight w (find k c) ≡ sum_pairs w c + w x
  unfolding assign find
  sum_pairs-assign k x [] c' h = cc
  sum_pairs-assign k x (e ∷ c) c' h = elim (Option-cases (assign k x c)) [
    | inl lost ↦ ground arith
    | inr (rest, found) ↦ ground (arith, sum_pairs-assign k x c rest found)
  ]

  sum_pairs-unlink :
      (k : K) (c c' : Chain K V)
      → unlink k c ≡ some c'
      → sum_pairs w c' + weight w (find k c) ≡ sum_pairs w c
  unfolding unlink find
  sum_pairs-unlink k [] c' h = cc
  sum_pairs-unlink k (e ∷ c) c' h = elim (Option-cases (unlink k c)) [
    | inl lost ↦ ground arith
    | inr (rest, found) ↦ ground (arith, sum_pairs-unlink k c rest found)
  ]

  module _ (m : HashMap K V) (v : IsValid m) (k : K) (ik : key.IsKey k) where
    abbrev old : Chain K V
    old = chain_at m.table (home m k)

    total-written :
        (l : LinkedList (K × V)) (n : ℕ)
        → total w (written m k l n) + sum_pairs w old ≡ total w m + sum_pairs w l.items
    unfolding total
    total-written l n = sum_pairs-set w m.table (home m k) (some l) (home-lt m v k)

    -- A put replaces the weight of the old value, if there was one, by that of the new.
    pub total-put :
        (x : V) → total w (hash_map_put m k x) + weight w (hash_map_get m k) ≡ total w m + w x
    unfolding hash_map_get linked_list_prepend
    total-put x =
        let list = home_list m v k ik x in
        let here : list.items ≡ old = list-items m v k ik x in
        elim (Option-cases (assign k x list.items)) [
          | inl lost ↦
              let absent : find k old ≡ none =
                rw here at (find-eq-none k list.items (assign-none k x list.items lost)) in
              rw (put-eq_new m v k ik x lost, absent)
                (omega (
                  arith,
                  total-written (linked_list_prepend list (k, x)) (m.size + 1),
                  ap (sum_pairs w) here,
                ))
          | inr (c, found) ↦
              let moved : sum_pairs w c + weight w (find k old) ≡ sum_pairs w old + w x =
                rw here at (sum_pairs-assign k x list.items c found) in
              rw (put-eq_found m v k ik x c found)
                (omega (arith, total-written (record list { items = c }) m.size, moved))
        ]

    -- A removal takes the weight of the value off.
    pub total-remove :
        (m' : HashMap K V) (x : V)
        → hash_map_get m k ≡ some x
        → hash_map_remove m k ≡ some m'
        → total w m' + w x ≡ total w m
    unfolding hash_map_get
    total-remove m' x there run = elim (Option-cases (bucket_of m k)) [
      | inl null ↦ absurd (ground arith)
      | inr (l, at) ↦
          let found : find k l.items ≡ some x = ground arith in
          elim (Option-cases (unlink k l.items)) [
            | inl lost ↦ absurd (ground (arith, unlink-none k l.items))
            | inr (rest, cut) ↦ elim (List-cases l.items) [
              | inl empty ↦ absurd (ground arith)
              | inr (e, c, more) ↦
                  let same : written m k (record { items = rest; size = l.size - 1 }) (m.size - 1)
                      ≡ m' =
                    cc (remove-eq m v k ik l e c rest at more (rw more at cut)) in
                  let here : old ≡ l.items = rw at in
                  rw (← same) (
                    omega (
                      arith,
                      total-written (record { items = rest; size = l.size - 1 }) (m.size - 1),
                      sum_pairs-unlink k l.items rest cut,
                      ap (weight w) found,
                      ap (sum_pairs w) here,
                    ))
            ]
          ]
    ]

    -- What is stored under one key is part of the sum.
    pub weight-le-total : weight w (hash_map_get m k) ≤ total w m
    weight-le-total = elim (Option-cases (hash_map_get m k)) [
      | inl absent ↦ rw absent (omega arith)
      | inr (x, there) ↦
          let (m', run, e) = remove-Erased m v k ik x there in
          rw there (omega (arith, total-remove m' x there run))
    ]
