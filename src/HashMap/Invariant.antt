-- ===== src/HashMap/Invariant.antt =====
-- The well-formedness of a map of lib/hash_map.c, and a write to one bucket.
use ece_lib.Base.{
  ℕ, zero, suc, ◌+◌, ◌≤◌, ◌<◌, ◌≡◌, refl, sym, ap, ◌∙◌, inl, inr, Option, none, some, List, [], ◌∷◌,
  arith, length, get_or, set, replicate, ◌==◌, if◌then◌else◌, Bool-cases, length-append, length-set,
  get_or-set, length-replicate, get_or-replicate,
}
use ece_lib.LinkedList.{LinkedList}
use ece_lib.HashMap.Keys.{HashKey}
use ece_lib.HashMap.{Chain, Bucket, HashMap, pairs, all_pairs, find, hash_map_init, hash_map_get}
use ece_lib.HashMap.Chain.{to_nat, AreKeys, count}

module _ {K V : Type 0} where
  -- The pairs of the bucket at an index, none beyond the end of the array.
  abbrev pub chain_at : List (Bucket K V) → ℕ → Chain K V
  chain_at t i = pairs (get_or t i none)

  -- The counter of an allocated bucket is the number of its pairs.
  abbrev pub IsCountedBucket : Bucket K V → Type 0
  IsCountedBucket none = Unit
  IsCountedBucket (some l) = l.size ≡ length l.items

module _ {K V : Type 0} ⦃key : HashKey K⦄ where
  -- What holds of every map that `hash_map_init` makes and the other operations change. A key has
  -- one pair at most, and only in the bucket of its hash value.
  pub record IsValid (m : HashMap K V) : Type 0 where
    pub roomy : 0 < m.capacity
    pub width : length m.table ≡ m.capacity
    pub keys : (i : ℕ) → AreKeys (chain_at m.table i)
    pub lists : (i : ℕ) → IsCountedBucket (get_or m.table i none)
    pub placed :
        (q : K) (i : ℕ)
        → key.IsKey q
        → count q (chain_at m.table i) ≤ to_nat (key.hash q m.capacity == i)
    pub counted : m.size ≡ length (all_pairs m.table)

  chain_at-replicate : (n i : ℕ) → get_or {A = Bucket K V} (replicate n none) i none ≡ none
  chain_at-replicate n i = get_or-replicate n i none

  all_pairs-replicate : (n : ℕ) → all_pairs {K = K} {V = V} (replicate n none) ≡ []
  all_pairs-replicate zero = refl
  all_pairs-replicate (suc n) = all_pairs-replicate n

  pub init-IsValid : (n : ℕ) → 0 < n → IsValid (hash_map_init n)
  unfolding hash_map_init count
  init-IsValid n h = record {
    roomy = h;
    width = length-replicate n none;
    keys = λ i. rw chain_at-replicate tt;
    lists = λ i. rw chain_at-replicate tt;
    placed = λ q i iq. rw chain_at-replicate (omega arith);
    counted = sym (ap length (all_pairs-replicate n));
  }

  pub length-chain_at-le :
      (t : List (Bucket K V)) (i : ℕ) → length (chain_at t i) ≤ length (all_pairs t)
  length-chain_at-le [] i = omega arith
  length-chain_at-le (b ∷ t) zero = rw length-append (omega arith)
  length-chain_at-le (b ∷ t) (suc i) = rw length-append (omega (arith, length-chain_at-le t i))

  length-all_pairs-set :
      (t : List (Bucket K V)) (i : ℕ) (b : Bucket K V)
      → i < length t
      → length (all_pairs (set t i b)) + length (chain_at t i)
        ≡ length (all_pairs t) + length (pairs b)
  length-all_pairs-set [] i b h = absurd (omega arith)
  length-all_pairs-set (x ∷ t) zero b h = simp length-append (omega arith)
  length-all_pairs-set (x ∷ t) (suc i) b h =
      simp length-append (omega (arith, length-all_pairs-set t i b (omega arith)))

  abbrev pub home : HashMap K V → K → ℕ
  home m k = key.hash k m.capacity

  pub home-lt : (m : HashMap K V) → IsValid m → (k : K) → home m k < length m.table
  home-lt m v k = rw v.width (key.hash-lt k m.capacity v.roomy)

  -- Every operation writes one list to the bucket of its key.
  abbrev pub written : HashMap K V → K → LinkedList (K × V) → ℕ → HashMap K V
  written m k l n = record m { table = set m.table (key.hash k m.capacity) (some l); size = n }

  module _ (m : HashMap K V) (v : IsValid m) (k : K) (ik : key.IsKey k) where
    pub get_or-written :
        (l : LinkedList (K × V)) (n i : ℕ)
        → get_or (written m k l n).table i none
          ≡ (if home m k == i then some l else get_or m.table i none)
    get_or-written l n i = get_or-set m.table (home m k) i (some l) none (home-lt m v k)

    -- A list that keeps the invariant of its bucket keeps that of the map.
    pub written-IsValid :
        (l : LinkedList (K × V)) (n : ℕ)
        → l.size ≡ length l.items
        → AreKeys l.items
        → ((q : K) → key.IsKey q → count q l.items ≤ to_nat (key.hash q m.capacity == home m k))
        → n + length (chain_at m.table (home m k)) ≡ m.size + length l.items
        → IsValid (written m k l n)
    written-IsValid l n sized keys few total = record {
      roomy = v.roomy;
      width = length-set m.table (home m k) (some l) ∙ v.width;
      keys = λ i. rw (get_or-written l n i) (ground (arith, v.keys i));
      lists = λ i. rw (get_or-written l n i) (ground (arith, v.lists i));
      placed = λ q i iq. rw (get_or-written l n i) (ground (arith, v.placed q i iq, few q iq));
      counted =
          omega
            (arith, length-all_pairs-set m.table (home m k) (some l) (home-lt m v k), v.counted);
    }

    pub get-written :
        (l : LinkedList (K × V)) (n : ℕ) (j : K)
        → hash_map_get (written m k l n) j
          ≡ (if home m k == home m j then find j l.items else hash_map_get m j)
    unfolding hash_map_get
    get-written l n j = rw (get_or-written l n (home m j)) (ground arith)

    -- A write through the key's bucket that changes what is read under the key alone.
    pub reads-written :
        (l : LinkedList (K × V)) (n : ℕ) (o : Option V)
        → ((j : K)
            → key.IsKey j
            → find j l.items ≡ (if key.same k j then o else find j (chain_at m.table (home m k))))
        → (j : K) → key.IsKey j
        → hash_map_get (written m k l n) j ≡ (if key.same k j then o else hash_map_get m j)
    unfolding hash_map_get
    reads-written l n o reads j ij =
        rw (get-written l n j) (elim (Bool-cases (home m k == home m j)) [
          | inl near ↦ ground (arith, reads j ij)
          | inr far ↦ ground (arith, key.same_iff k j ik ij)
        ])
