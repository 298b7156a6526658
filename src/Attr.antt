-- ===== src/Attr.antt =====
-- src/attr.c with inc/attr.h: the attributes that tokens refer to, counted by reference.
-- A write through a pointer that `hash_map_get` returned is a `hash_map_put` under its key.
pub mod Refs
use ece_lib.Base.{
  ℕ, ◌+◌, ◌-◌, ◌*◌, Bool, true, false, ◌||◌, Option, none, some, List, [], ◌∷◌, ◌==◌, leb,
  if◌then◌else◌,
}
use ece_lib.Machine.{Run, ok, fault, null_pointer, ◌>>=◌, Memory, malloc, u64}
use ece_lib.Wire.{read_be, decimal}
use ece_lib.HashMap.Keys.{int_key}
use ece_lib.HashMap.{HashMap, hash_map_init, hash_map_get, hash_map_put, hash_map_remove}

-- `enum edge_attr_type`; a type that comes over the wire may be any number.
abbrev pub edge_attr_num : ℕ
edge_attr_num = 0

abbrev pub edge_attr_str : ℕ
edge_attr_str = 1

abbrev pub edge_attr_butt : ℕ
edge_attr_butt = 2

pub record EdgeAttr : Type 0 where
  pub topic : ℕ
  pub type : ℕ
  pub len : ℕ
  pub ref : ℕ

-- `g_attr_map`
abbrev pub Attrs : Type 0
Attrs = HashMap ℕ EdgeAttr

unfoldable pub attr_init : Attrs
attr_init = hash_map_init 64

-- What `num_to_value` stores for a value of one, two or four bytes; any other length leaves 0.
unfoldable pub num_to_value : List ℕ → ℕ → Run ℕ
num_to_value bytes len =
    if len == 1
    then read_be 1 0 bytes
    else if len == 2
    then read_be 2 0 bytes
    else if len == 4
    then read_be 4 0 bytes
    else ok 0

-- The text that `sprintf` writes; with a length of 0 `res` is left as it is, which is `none`.
unfoldable pub num_to_string : List ℕ → ℕ → Run (Option (List ℕ))
num_to_string bytes len =
    if len == 0 then ok none else do num ← num_to_value bytes len; ok (some (decimal num))

-- `GET_ATTR_OPERATIONS(type).to_string(...)`: the table has functions for numbers alone, and the
-- entry of strings is `NULL`.
unfoldable pub to_string : ℕ → List ℕ → ℕ → Run (Option (List ℕ))
to_string type bytes len =
    if type == edge_attr_num then num_to_string bytes len else fault null_pointer

unfoldable pub get_attr : ℕ → Attrs → Option EdgeAttr
get_attr topic attrs = hash_map_get attrs topic

abbrev pub rejects : (topic type len : ℕ) → Bool
rejects topic type len = topic == 0 || leb edge_attr_butt type || len == 0

unfoldable pub add_attr : (topic type len : ℕ) → Attrs → Memory → Option EdgeAttr × Attrs × Memory
add_attr topic type len attrs mem =
    if rejects topic type len then (none, attrs, mem) else elim (hash_map_get attrs topic) [
      | none ↦
          let (got, mem') = malloc mem in
          let attr : EdgeAttr = record { topic = topic; type = type; len = len; ref = 1 } in
          if got then (some attr, hash_map_put attrs topic attr, mem') else (none, attrs, mem')
      | some old ↦
          let attr : EdgeAttr = record old { ref = u64 (old.ref + 1) } in
          (some attr, hash_map_put attrs topic attr, mem)
    ]

-- The map without the topic; a `hash_map_remove` that reads through `NULL` is a fault.
abbrev pub removed : {A : Type 0} → Option A → Run A
removed none = fault null_pointer
removed (some m) = ok m

-- A count below `ref` is logged and set to 0.
unfoldable pub del_attr_ref : (topic ref : ℕ) → Attrs → Run Attrs
del_attr_ref topic ref attrs = elim (hash_map_get attrs topic) [
  | none ↦ ok attrs
  | some attr ↦
      let left : ℕ = if leb ref attr.ref then attr.ref - ref else 0 in
      if left == 0
      then removed (hash_map_remove attrs topic)
      else ok (hash_map_put attrs topic (record attr { ref = left }))
]

unfoldable pub del_attr : ℕ → Attrs → Run Attrs
unfolding del_attr_ref
del_attr topic = del_attr_ref topic 1
