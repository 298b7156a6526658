-- ===== src/HashMap/Remove.antt =====
-- `hash_map_remove` of lib/hash_map.c.
use ece_lib.Base.{
  ◌+◌, ◌-◌, ◌≤◌, ◌≡◌, refl, inl, inr, Bool, true, false, none, some, [], ◌∷◌, arith, length,
  if◌then◌else◌, Option-cases, List-cases,
}
use ece_lib.LinkedList.{LinkedList}
use ece_lib.HashMap.Keys.{HashKey}
use ece_lib.HashMap.{Chain, Bucket, HashMap, find, unlink, bucket_of, hash_map_get, hash_map_remove}
use ece_lib.HashMap.Chain.{unlink-Unlinked, unlink-none, unlink_absent}
use ece_lib.HashMap.Invariant.{
  chain_at, length-chain_at-le, IsValid, home, written, written-IsValid, reads-written,
}

module _ {K V : Type 0} ⦃key : HashKey K⦄ where
  -- What `hash_map_remove` of a key that is there has done.
  pub record Erased (m : HashMap K V) (k : K) (m' : HashMap K V) : Type 0 where
    pub valid : IsValid m'
    pub reads :
        (j : K)
        → key.IsKey j
        → hash_map_get m' j ≡ (if key.same k j then none else hash_map_get m j)
    pub sized : m'.size + 1 ≡ m.size

  -- The bucket of the key has been allocated and holds no pair.
  abbrev pub is_emptied : Bucket K V → Bool
  is_emptied none = false
  is_emptied (some l) = elim l.items [ [] ↦ true | _ ∷ _ ↦ false ]

  -- Of a key that is not there, `hash_map_remove` changes nothing where the bucket is `NULL` or
  -- holds a pair, and reads through `NULL` where the bucket is allocated and empty.
  pub remove_absent :
      (m : HashMap K V) (k : K)
      → hash_map_get m k ≡ none
      → hash_map_remove m k ≡ (if is_emptied (bucket_of m k) then none else some m)
  unfolding hash_map_get hash_map_remove
  remove_absent m k h = elim (Option-cases (bucket_of m k)) [
    | inl null ↦ rw (null, hash_map_remove) refl
    | inr (l, at) ↦
        let lost : find k l.items ≡ none = ground arith in
        elim (List-cases l.items) [
          | inl empty ↦ rw (at, hash_map_remove, empty) refl
          | inr (e, c, more) ↦
              rw (at, hash_map_remove, more, unlink_absent k (e ∷ c) (rw more at lost)) refl
        ]
  ]

  module _ (m : HashMap K V) (v : IsValid m) (k : K) (ik : key.IsKey k) where
    abbrev old : Chain K V
    old = chain_at m.table (home m k)

    pub remove-eq :
        (l : LinkedList (K × V)) (e : K × V) (c rest : Chain K V)
        → bucket_of m k ≡ some l
        → l.items ≡ e ∷ c
        → unlink k (e ∷ c) ≡ some rest
        → hash_map_remove m k
          ≡ some (written m k (record { items = rest; size = l.size - 1 }) (m.size - 1))
    unfolding hash_map_remove
    remove-eq l e c rest at items found = rw (at, hash_map_remove, items, found) refl

    unlinked-Erased :
        (l : LinkedList (K × V)) (rest : Chain K V)
        → bucket_of m k ≡ some l
        → unlink k l.items ≡ some rest
        → Erased m k (written m k (record { items = rest; size = l.size - 1 }) (m.size - 1))
    unfolding bucket_of
    unlinked-Erased l rest at found =
        let here : old ≡ l.items = rw at in
        let u = unlink-Unlinked k l.items rest ik (rw here at (v.keys (home m k))) found in
        let sized : l.size ≡ length l.items = rw at at (v.lists (home m k)) in
        let once = λ (q : K) (iq : key.IsKey q). rw here at (v.placed q (home m k) iq) in
        let some_left : length l.items ≤ m.size =
          rw (← here) (omega (arith, v.counted, length-chain_at-le m.table (home m k))) in
        record {
          valid =
              written-IsValid m v k ik (record { items = rest; size = l.size - 1 }) (m.size - 1)
                (omega (arith, u.long)) u.keys (λ q iq. omega (arith, u.counts q iq, once q iq))
                (rw here (omega (arith, u.long)));
          reads =
              reads-written m v k ik (record { items = rest; size = l.size - 1 }) (m.size - 1) none
                (λ j ij. rw here (u.reads j ij (ground (arith, once j ij))));
          sized = omega (arith, u.long);
        }

    -- From a well-formed map `hash_map_remove` removes a key that is there: the map stays well
    -- formed, the key alone is read as absent from then on, and one pair less is counted.
    pub remove-Erased :
        (x : V)
        → hash_map_get m k ≡ some x
        → (m' : HashMap K V) × (hash_map_remove m k ≡ some m') × Erased m k m'
    unfolding hash_map_get
    remove-Erased x there = elim (Option-cases (bucket_of m k)) [
      | inl null ↦ absurd (ground arith)
      | inr (l, at) ↦
          let found : find k l.items ≡ some x = ground arith in
          elim (Option-cases (unlink k l.items)) [
            | inl lost ↦ absurd (ground (arith, unlink-none k l.items))
            | inr (rest, cut) ↦ elim (List-cases l.items) [
              | inl empty ↦ absurd (ground arith)
              | inr (e, c, more) ↦ (
                written m k (record { items = rest; size = l.size - 1 }) (m.size - 1),
                remove-eq l e c rest at more (rw more at cut),
                unlinked-Erased l rest at cut,
              )
            ]
          ]
    ]
