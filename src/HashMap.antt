-- ===== src/HashMap.antt =====
-- lib/hash_map.c and the structures of inc/hash_map.h: an array of buckets, each a `NULL` or a
-- linked list of key and value pairs. A key pointer stands for the key that it points to, a value
-- pointer for the structure behind it; the comparator and the hash function, which the C map keeps
-- as two fields that never change after `hash_map_init`, are the instance `HashKey`.
--
-- A bucket that `hash_map_put` has created stays allocated when its last pair is removed: it is then
-- `some` of an empty list, and not `none`.
pub mod Keys
pub mod Chain
pub mod Invariant
pub mod Put
pub mod Remove
pub mod Steps
pub mod Walk
pub mod Each
pub mod Sum
use Keys.{HashKey}
use ece_lib.Base.{
  ℕ, ◌+◌, ◌-◌, Bool, true, false, Option, none, some, List, [], ◌∷◌, ◌++◌, foldl, get_or, set,
  replicate, if◌then◌else◌,
}
use ece_lib.LinkedList.{LinkedList, linked_list_init, linked_list_prepend, linked_list_free}

abbrev pub Chain : Type 0 → Type 0 → Type 0
Chain K V = List (K × V)

abbrev pub Bucket : Type 0 → Type 0 → Type 0
Bucket K V = Option (LinkedList (K × V))

pub record HashMap (K V : Type 0) : Type 0 where
  pub capacity : ℕ
  pub size : ℕ
  pub table : List (Bucket K V)

-- The array is cleared by `memset`. (`safe_malloc` ends the process where memory is out.)
unfoldable pub hash_map_init : {K V : Type 0} → ℕ → HashMap K V
hash_map_init n = record { capacity = n; size = 0; table = replicate n none }

module _ {K V : Type 0} where
  -- The pairs of a bucket; `NULL` has none.
  abbrev pub pairs : Bucket K V → Chain K V
  pairs none = []
  pairs (some l) = l.items

  -- All the pairs, bucket by bucket, in the order in which `hash_map_work` and `hash_map_free`
  -- meet them.
  abbrev pub all_pairs : List (Bucket K V) → Chain K V
  all_pairs [] = []
  all_pairs (b ∷ bs) = pairs b ++ all_pairs bs

  -- `hash_map_free` calls `hash_list_destructor` on each pair; these are the values that it frees.
  unfoldable pub hash_map_free : HashMap K V → Chain K V
  hash_map_free m = all_pairs m.table

  -- `next` is read before the callback runs, so a callback that removes the pair that it was given
  -- does not disturb the walk: it goes over the pairs that were there at the start.
  unfoldable pub hash_map_work : {S : Type 0} → HashMap K V → (S → K × V → S) → S → S
  hash_map_work m loop s = foldl loop s (all_pairs m.table)

  unfoldable pub hash_map_size : HashMap K V → ℕ
  hash_map_size m = m.size

  -- The list of the bucket, made by `linked_list_init` if the bucket is `NULL`.
  unfoldable pub list_of : Bucket K V → LinkedList (K × V)
  list_of none = linked_list_init
  list_of (some l) = l

module _ {K V : Type 0} ⦃key : HashKey K⦄ where
  -- The loop of `hash_map_get` over the nodes of one bucket.
  unfoldable pub find : K → Chain K V → Option V
  find k [] = none
  find k (e ∷ c) = if key.same e.0 k then some e.1 else find k c

  -- The loop of `hash_map_contains_key`.
  unfoldable pub has_key : K → Chain K V → Bool
  has_key k [] = false
  has_key k (e ∷ c) = if key.same e.0 k then true else has_key k c

  -- The loop of `hash_map_put`: the pair of the key gets the new value and keeps its key pointer;
  -- `none` where no pair has the key.
  unfoldable pub assign : K → V → Chain K V → Option (Chain K V)
  assign k v [] = none
  assign k v (e ∷ c) =
      if key.same e.0 k
      then some ((e.0, v) ∷ c)
      else elim (assign k v c) [ none ↦ none | some c' ↦ some (e ∷ c') ]

  -- The loop of `hash_map_remove` on a list that has a first node: the chain without the first pair
  -- of the key, or `none` where the end is met.
  unfoldable pub unlink : K → Chain K V → Option (Chain K V)
  unlink k [] = none
  unlink k (e ∷ c) =
      if key.same e.0 k then some c else elim (unlink k c) [ none ↦ none | some c' ↦ some (e ∷ c') ]

  -- `map->table[map->hash_func(key, map->capacity)]`
  unfoldable pub bucket_of : HashMap K V → K → Bucket K V
  bucket_of m k = get_or m.table (key.hash k m.capacity) none

  unfoldable pub hash_map_get : HashMap K V → K → Option V
  unfolding find bucket_of
  hash_map_get m k = find k (pairs (bucket_of m k))

  unfoldable pub hash_map_contains_key : HashMap K V → K → Bool
  unfolding has_key bucket_of
  hash_map_contains_key m k = has_key k (pairs (bucket_of m k))

  unfoldable pub hash_map_put : HashMap K V → K → V → HashMap K V
  unfolding assign bucket_of list_of linked_list_init linked_list_prepend
  hash_map_put m k v =
      let l = list_of (bucket_of m k) in
      let i = key.hash k m.capacity in
      elim (assign k v l.items) [
        | some c ↦ record m { table = set m.table i (some (record l { items = c })) }
        | none ↦ record m {
          table = set m.table i (some (linked_list_prepend l (k, v)));
          size = m.size + 1;
        }
      ]

  -- `none` is the read through `NULL` that `current_node->data` makes when the bucket is allocated
  -- and holds no node.
  unfoldable pub hash_map_remove : HashMap K V → K → Option (HashMap K V)
  unfolding unlink bucket_of
  hash_map_remove m k = elim (bucket_of m k) [
    | none ↦ some m
    | some l ↦ elim l.items [
      | [] ↦ none
      | e ∷ c ↦ elim (unlink k (e ∷ c)) [
        | none ↦ some m
        | some rest ↦ some (record m {
          table =
              set m.table (key.hash k m.capacity)
                (some (record { items = rest; size = l.size - 1 }));
          size = m.size - 1;
        })
      ]
    ]
  ]
