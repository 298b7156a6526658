-- ===== src/HashMap/Walk.antt =====
-- `hash_map_work`, `hash_map_free`, `hash_map_contains_key` and `hash_map_init` of lib/hash_map.c.
use ece_lib.Base.{
  Bool, true, ◌++◌, ℕ, zero, suc, ◌≤◌, ◌<◌, ◌≡◌, refl, sym, ◌∙◌, inl, inr, false, none, List, [],
  ◌∷◌, arith, length, ◌==◌, foldl, Option-cases, get_or-replicate,
}
use ece_lib.HashMap.Keys.{HashKey}
use ece_lib.HashMap.{
  Chain, Bucket, HashMap, pairs, all_pairs, find, bucket_of, hash_map_init, hash_map_get,
  hash_map_contains_key, hash_map_work, hash_map_free, hash_map_size,
}
use ece_lib.HashMap.Chain.{
  AreKeys, to_nat, is_some, count, count-eq-zero, find-eq-none, has_key-find, count-append,
  find-append,
}
use ece_lib.HashMap.Invariant.{chain_at, IsValid, init-IsValid, home}

module _ {K V : Type 0} ⦃key : HashKey K⦄ where
  -- `hash_map_contains_key` is true exactly where `hash_map_get` finds a value.
  pub contains_key-get :
      (m : HashMap K V) (k : K) → hash_map_contains_key m k ≡ is_some (hash_map_get m k)
  unfolding hash_map_contains_key hash_map_get
  contains_key-get m k = has_key-find k (pairs (bucket_of m k))

  -- A new map of at least one bucket is well formed and has no key.
  pub init_empty :
      (n : ℕ) (k : K)
      → 0 < n
      → IsValid {K = K} {V = V} (hash_map_init n)
        × (hash_map_get {K = K} {V = V} (hash_map_init n) k ≡ none)
  unfolding hash_map_init hash_map_get
  init_empty n k h =
      (init-IsValid n h, rw (get_or-replicate {A = Bucket K V} n (key.hash k n) none) refl)

  -- Where one chain alone can hold the key, the walk over all pairs finds what that chain holds.
  walk_nowhere :
      (q : K) (t : List (Bucket K V))
      → ((i : ℕ) → count q (chain_at t i) ≡ 0)
      → count q (all_pairs t) ≡ 0
  unfolding count
  walk_nowhere q [] h = refl
  walk_nowhere q (b ∷ t) h = rw (count-append, h 0, walk_nowhere q t (λ i. h (suc i)))

  walk_only :
      (q : K) (t : List (Bucket K V)) (j : ℕ)
      → ((i : ℕ) → (j == i) ≡ false → count q (chain_at t i) ≡ 0)
      → (find q (all_pairs t) ≡ find q (chain_at t j))
        × (count q (all_pairs t) ≡ count q (chain_at t j))
  unfolding find count
  walk_only q [] j h = (refl, refl)
  walk_only q (b ∷ t) zero h =
      let rest = walk_nowhere q t (λ i. h (suc i) (ground arith)) in
      simp (find-append, count-append, rest, find-eq-none q (all_pairs t) rest) (ground arith)
  walk_only q (b ∷ t) (suc j) h =
      let here = h 0 (ground arith) in
      let (found, counted) = walk_only q t j (λ i n. h (suc i) (ground arith)) in
      simp (find-append, count-append, here, find-eq-none q (pairs b) here) (found, omega arith)

  count-eq-is_some :
      (q : K) (c : Chain K V) → count q c ≤ 1 → count q c ≡ to_nat (is_some (find q c))
  count-eq-is_some q c h = elim (Option-cases (find q c)) [
    | inl lost ↦ rw lost (count-eq-zero q c lost)
    | inr (x, there) ↦ rw there (ground (arith, find-eq-none q c))
  ]

  AreKeys-append : (a b : Chain K V) → AreKeys a → AreKeys b → AreKeys (a ++ b)
  AreKeys-append [] b h k = k
  AreKeys-append (e ∷ a) b h k = (h.0, AreKeys-append a b h.1 k)

  pub AreKeys-all_pairs :
      (t : List (Bucket K V)) → ((i : ℕ) → AreKeys (chain_at t i)) → AreKeys (all_pairs t)
  AreKeys-all_pairs [] h = tt
  AreKeys-all_pairs (b ∷ t) h =
      AreKeys-append (pairs b) (all_pairs t) (h 0) (AreKeys-all_pairs t (λ i. h (suc i)))

  module _ (m : HashMap K V) (v : IsValid m) where
    -- The pairs that `hash_map_free` meets.
    pub free_once :
        (q : K)
        → key.IsKey q
        → (find q (hash_map_free m) ≡ hash_map_get m q)
          × (count q (hash_map_free m) ≡ to_nat (is_some (hash_map_get m q)))
          × (length (hash_map_free m) ≡ hash_map_size m)
    unfolding hash_map_free hash_map_get hash_map_size
    free_once q iq =
        let (found, counted) =
          walk_only q m.table (home m q) (λ i far. ground (arith, v.placed q i iq)) in
        (
          found,
          counted
              ∙ count-eq-is_some q (chain_at m.table (home m q))
                  (ground (arith, v.placed q (home m q) iq)),
          sym v.counted,
        )

    -- In a well-formed map `hash_map_free` meets every key of the map once and no other, with the value
    -- that `hash_map_get` reads, and as many pairs as `hash_map_size` says; `hash_map_work` calls its
    -- function on these pairs, in their order.
    pub walk_once :
        {S : Type 0} (loop : S → K × V → S) (s : S) (q : K)
        → key.IsKey q
        → (find q (hash_map_free m) ≡ hash_map_get m q)
          × (count q (hash_map_free m) ≡ to_nat (is_some (hash_map_get m q)))
          × (length (hash_map_free m) ≡ hash_map_size m)
          × (hash_map_work m loop s ≡ foldl loop s (hash_map_free m))
    unfolding hash_map_work hash_map_free
    walk_once loop s q iq = let (found, once, sized) = free_once q iq in (found, once, sized, refl)

pub to_nat-le : (b : Bool) → to_nat b ≤ 1
to_nat-le true = omega arith
to_nat-le false = omega arith
