-- ===== src/Tests/Maps.antt =====
-- Lists, hash maps and token lists with a few entries.
use ece_lib.Base.{
  foldl, ◌*◌, ℕ, ◌+◌, ◌≡◌, refl, ◌≤◌, List, [], ◌∷◌, none, some, arith, length, All, if◌then◌else◌,
}
use ece_lib.LinkedList.{LinkedList, linked_list_init, linked_list_prepend}
use ece_lib.HashMap.Keys.{int_key, int_cmp, int_mix, int_hash_func}
use ece_lib.HashMap.{
  HashMap, hash_map_init, hash_map_get, hash_map_put, hash_map_remove, hash_map_free, hash_map_work,
  hash_map_size, find, assign, unlink, list_of, bucket_of,
}
use ece_lib.HashMap.Chain.{is_some, count, to_nat}
use ece_lib.HashMap.Invariant.{IsValid, init-IsValid}
use ece_lib.HashMap.Put.{Written, put-Written}
use ece_lib.HashMap.Remove.{is_emptied, remove_absent}
use ece_lib.HashMap.Walk.{walk_once}
use ece_lib.Token.{G1Token, insert_token, remove_token}
use ece_lib.Token.Layout.{IsLaidOut, IfSome, Apart, uses, insert-Apart, remove-insert}

two_nodes : LinkedList ℕ
two_nodes = record { items = 4 ∷ 9 ∷ []; size = 2 }

-- Two buckets, so that some of the keys meet in one.
abbrev empty_map : HashMap ℕ ℕ
empty_map = hash_map_init 2

abbrev one_key : HashMap ℕ ℕ
one_key = hash_map_put empty_map 5 50

abbrev two_keys : HashMap ℕ ℕ
two_keys = hash_map_put one_key 8 80

empty_map-IsValid : IsValid empty_map
empty_map-IsValid = init-IsValid 2 (omega arith)

one_key-Written : Written empty_map 5 50 one_key
one_key-Written = put-Written empty_map empty_map-IsValid 5 (omega arith) 50

two_keys-Written : Written one_key 8 80 two_keys
two_keys-Written = put-Written one_key one_key-Written.valid 8 (omega arith) 80

two_keys-read : hash_map_get two_keys 5 ≡ some 50
unfolding hash_map_get hash_map_put hash_map_init find assign bucket_of list_of linked_list_init
    linked_list_prepend int_cmp int_hash_func int_mix
two_keys-read = refl

-- The map from which its one key has been removed keeps the bucket.
abbrev emptied : HashMap ℕ ℕ
emptied = record { capacity = 1; size = 0; table = some (record { items = []; size = 0 }) ∷ [] }

emptied-read : hash_map_get emptied 5 ≡ none
unfolding hash_map_get find bucket_of int_hash_func int_mix
emptied-read = refl

emptied-reached :
    hash_map_remove (hash_map_put (hash_map_init {K = ℕ} {V = ℕ} 1) 5 50) 5 ≡ some emptied
unfolding hash_map_remove hash_map_put hash_map_init unlink assign bucket_of list_of
    linked_list_init linked_list_prepend int_cmp int_hash_func int_mix
emptied-reached = refl

remove_absent_example :
    hash_map_remove emptied 5 ≡ (if is_emptied (bucket_of emptied 5) then none else some emptied)
remove_absent_example = remove_absent emptied 5 emptied-read

walk_once_example :
    (find 8 (hash_map_free two_keys) ≡ hash_map_get two_keys 8)
    × (count 8 (hash_map_free two_keys) ≡ to_nat (is_some (hash_map_get two_keys 8)))
    × (length (hash_map_free two_keys) ≡ hash_map_size two_keys)
    × (hash_map_work two_keys (λ n (k, x). n + k * x) 0
        ≡ foldl (λ n (k, x). n + k * x) 0 (hash_map_free two_keys))
walk_once_example =
    walk_once two_keys two_keys-Written.valid (λ n (k, x). n + k * x) 0 8 (omega arith)

-- A format of ten bytes with two tokens and a gap between them.
abbrev two_tokens : List G1Token
two_tokens =
    record { topic = 1; offset = 0; len = 2 } ∷ record { topic = 2; offset = 6; len = 4 } ∷ []

abbrev in_gap : G1Token
in_gap = record { topic = 3; offset = 3; len = 2 }

two_tokens-IsLaidOut : IsLaidOut 0 10 two_tokens
two_tokens-IsLaidOut = (omega arith, (omega arith, omega arith))

insert-Apart_example :
    IfSome
      (λ _. (0 ≤ 3) × (3 + 2 ≤ 10) × All (Apart in_gap) two_tokens)
      (insert_token 10 in_gap 0 two_tokens)
insert-Apart_example =
    insert-Apart 10 in_gap (omega arith) (omega arith) 0 two_tokens two_tokens-IsLaidOut

in_gap-unused : uses 3 two_tokens ≡ 0
unfolding uses
in_gap-unused = refl

remove-insert_example :
    IfSome (λ ts. remove_token 3 ts ≡ two_tokens) (insert_token 10 in_gap 0 two_tokens)
remove-insert_example = remove-insert 10 in_gap 0 two_tokens in_gap-unused
