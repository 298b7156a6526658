-- ===== src/HashMap/Each.antt =====
-- What holds of every key of a map in inc/hash_map.h holds of every pair that a walk meets.
use ece_lib.Base.{
  ℕ, zero, suc, ◌≤◌, ◌≡◌, refl, sym, ◌∙◌, true, some, List, [], ◌∷◌, ◌++◌, All, arith, Bool-cases,
  inl, inr, subst,
}
use mathlib.Core.Option.{some-injective}
use ece_lib.HashMap.Keys.{HashKey}
use ece_lib.HashMap.{
  Chain, Bucket, HashMap, pairs, all_pairs, find, bucket_of, hash_map_get, hash_map_free,
}
use ece_lib.HashMap.Chain.{AreKeys, count, is_some, find-eq-none}
use ece_lib.HashMap.Invariant.{IsValid, chain_at}
use ece_lib.HashMap.Walk.{free_once, AreKeys-all_pairs, to_nat-le}

module _ {K V : Type 0} ⦃key : HashKey K⦄ (P : K → V → Type 0) where
  abbrev pub Each : Chain K V → Type 0
  Each = All (λ e. key.IsKey e.0 × P e.0 e.1)

  pairs-Each :
      (cs : Chain K V)
      → AreKeys cs
      → ((j : K) → key.IsKey j → count j cs ≤ 1)
      → ((j : K) (x : V) → key.IsKey j → find j cs ≡ some x → P j x)
      → Each cs
  unfolding find count
  pairs-Each [] keys once own = tt
  pairs-Each ((k, x) ∷ cs) (ik, keys) once own =
      let here : key.same k k ≡ true = (key.same_iff k k ik ik).1 refl in
      (
        (ik, own k x ik (rw (find, here) refl)),
        pairs-Each cs keys (λ j h. omega (arith, once j h))
            λ j d h found. own j d h (elim (Bool-cases (key.same k j)) [
              | inl same ↦
                  absurd (ground (arith, find-eq-none j cs (ground (arith, once j h)), found))
              | inr other ↦ rw (find, other) found
            ]),
      )

  pub Each-all_pairs :
      (m : HashMap K V)
      → IsValid m
      → ((j : K) (x : V) → key.IsKey j → hash_map_get m j ≡ some x → P j x)
      → Each (all_pairs m.table)
  unfolding hash_map_free
  Each-all_pairs m v own =
      pairs-Each (all_pairs m.table) (AreKeys-all_pairs m.table v.keys)
        (λ j h. omega (arith, (free_once m v j h).1, to_nat-le (is_some (hash_map_get m j))))
        λ j x h found. own j x h (sym (free_once m v j h).0 ∙ found)

  All-front : (a b : Chain K V) → Each (a ++ b) → Each a × Each b
  All-front [] b h = (tt, h)
  All-front (e ∷ a) b (h, rest) = let (p, q) = All-front a b rest in ((h, p), q)

  All-chain : (t : List (Bucket K V)) (i : ℕ) → Each (all_pairs t) → Each (chain_at t i)
  All-chain [] i h = tt
  All-chain (b ∷ t) zero h = (All-front (pairs b) (all_pairs t) h).0
  All-chain (b ∷ t) (suc i) h = All-chain t i (All-front (pairs b) (all_pairs t) h).1

  -- A value that is found is that of a pair.
  pub record IsPaired (x : V) : Type 0 where
    pub under : K
    pub is : key.IsKey under
    pub holds : P under x

  found-IsPaired : (k : K) (x : V) (cs : Chain K V) → Each cs → find k cs ≡ some x → IsPaired x
  unfolding find
  found-IsPaired k x [] h found = absurd (ground (arith, found))
  found-IsPaired k x ((j, y) ∷ cs) ((ij, p), rest) found = elim (Bool-cases (key.same j k)) [
    | inl same ↦
        let is_x : y ≡ x = some-injective y x (ground (arith, found, same)) in
        record { under = j; is = ij; holds = subst (P j) is_x p }
    | inr other ↦ found-IsPaired k x cs rest (ground (arith, found, other))
  ]

  -- Whatever the key that was asked for.
  pub get-IsPaired :
      (m : HashMap K V) (k : K) (x : V)
      → IsValid m
      → ((j : K) (y : V) → key.IsKey j → hash_map_get m j ≡ some y → P j y)
      → hash_map_get m k ≡ some x
      → IsPaired x
  unfolding hash_map_get bucket_of
  get-IsPaired m k x v own found =
      found-IsPaired k x (pairs (bucket_of m k))
        (All-chain m.table (key.hash k m.capacity) (Each-all_pairs m v own)) found
