-- ===== src/HashMap/Put.antt =====
-- `hash_map_put` of lib/hash_map.c.
use ece_lib.Base.{
  ◌+◌, ◌≡◌, refl, inl, inr, true, none, some, arith, length, if◌then◌else◌, Option-cases,
}
use ece_lib.LinkedList.{LinkedList, linked_list_init, linked_list_prepend}
use ece_lib.HashMap.Keys.{HashKey}
use ece_lib.HashMap.{
  Chain, Bucket, HashMap, pairs, find, assign, bucket_of, list_of, hash_map_get, hash_map_put,
}
use ece_lib.HashMap.Chain.{
  to_nat, is_some, count, AreKeys, find-eq-none, assign-none, assign_found, assign-Assigned,
}
use ece_lib.HashMap.Invariant.{chain_at, IsValid, home, written, written-IsValid, reads-written}

module _ {K V : Type 0} ⦃key : HashKey K⦄ where
  -- What `hash_map_put` of a value under a key has done.
  pub record Written (m : HashMap K V) (k : K) (x : V) (m' : HashMap K V) : Type 0 where
    pub valid : IsValid m'
    pub reads :
        (j : K)
        → key.IsKey j
        → hash_map_get m' j ≡ (if key.same k j then some x else hash_map_get m j)
    pub sized : m'.size + to_nat (is_some (hash_map_get m k)) ≡ m.size + 1

  list_of-items : (b : Bucket K V) → (list_of b).items ≡ pairs b
  unfolding list_of linked_list_init
  list_of-items none = refl
  list_of-items (some l) = refl

  module _ (m : HashMap K V) (v : IsValid m) (k : K) (ik : key.IsKey k) (x : V) where
    abbrev pub home_list : LinkedList (K × V)
    home_list = list_of (bucket_of m k)

    abbrev old : Chain K V
    old = chain_at m.table (home m k)

    pub list-items : home_list.items ≡ old
    unfolding bucket_of
    list-items = list_of-items (bucket_of m k)

    list-sized : home_list.size ≡ length home_list.items
    unfolding list_of linked_list_init bucket_of
    list-sized = ground (arith, v.lists (home m k))

    list-keys : AreKeys home_list.items
    list-keys = rw list-items (v.keys (home m k))

    pub put-eq_found :
        (c : Chain K V)
        → assign k x home_list.items ≡ some c
        → hash_map_put m k x ≡ written m k (record home_list { items = c }) m.size
    unfolding hash_map_put
    put-eq_found c found = rw (found, hash_map_put)

    pub put-eq_new :
        assign k x home_list.items ≡ none
        → hash_map_put m k x ≡ written m k (linked_list_prepend home_list (k, x)) (m.size + 1)
    unfolding hash_map_put
    put-eq_new lost = rw (lost, hash_map_put)

    put_found :
        (c : Chain K V) → assign k x home_list.items ≡ some c → Written m k x (hash_map_put m k x)
    unfolding hash_map_get
    put_found c found =
        let a = assign-Assigned k x home_list.items c ik list-keys found in
        let there : is_some (find k old) ≡ true =
          rw list-items at (assign_found k x home_list.items c found) in
        rw (put-eq_found c found) (record {
          valid =
              written-IsValid m v k ik (record home_list { items = c }) m.size
                (omega (arith, list-sized, a.long)) a.keys
                (λ q iq. rw (a.counts q, list-items) (v.placed q (home m k) iq))
                (rw (a.long, list-items) refl);
          reads =
              reads-written m v k ik (record home_list { items = c }) m.size (some x)
                (λ j ij. rw (a.reads j ij, list-items) refl);
          sized = ground (arith, there);
        })

    put_new : assign k x home_list.items ≡ none → Written m k x (hash_map_put m k x)
    unfolding linked_list_prepend count find hash_map_get
    put_new lost =
        let absent : count k old ≡ 0 = rw list-items at (assign-none k x home_list.items lost) in
        rw (put-eq_new lost) (record {
          valid =
              written-IsValid m v k ik (linked_list_prepend home_list (k, x)) (m.size + 1)
                (omega (arith, list-sized)) (ik, list-keys)
                (λ q iq.
                  rw list-items (ground (arith, v.placed q (home m k) iq, key.same_iff k q ik iq)))
                (rw list-items (omega arith));
          reads =
              reads-written m v k ik (linked_list_prepend home_list (k, x)) (m.size + 1) (some x)
                (λ j ij. rw list-items (ground arith));
          sized = ground (arith, find-eq-none k old);
        })

    -- On a well-formed map `hash_map_put` keeps the map well formed, changes what is read under
    -- its key alone, and counts one pair more exactly if the key was new.
    pub put-Written : Written m k x (hash_map_put m k x)
    put-Written = elim (Option-cases (assign k x home_list.items)) [
      | inl lost ↦ put_new lost
      | inr (c, found) ↦ put_found c found
    ]
