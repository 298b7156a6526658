-- ===== src/Dev/Values.antt =====
-- The attribute values of src/dev.c: `add_dev_attr`, `upt_dev_attr` and `fresh_dev`.
use ece_lib.Base.{
  ℕ, zero, suc, Bool, true, false, ◌||◌, Option, none, some, List, [], ◌∷◌, ◌++◌, ◌==◌,
  if◌then◌else◌, replicate,
}
use ece_lib.Machine.{Run, ok, fault, out_of_bounds, ◌>>=◌, Memory, malloc, memcpy}
use ece_lib.HashMap.Keys.{int_key, str_key}
use ece_lib.HashMap.{hash_map_get, hash_map_put}
use ece_lib.Attr.{Attrs, get_attr, to_string}
use ece_lib.Dev.{AttrVal, Dev, Edge, drop_age}

-- `memcmp(a, b, n) != 0`; reading on beyond a buffer is a fault.
unfoldable pub differs : (n : ℕ) (a b : List ℕ) → Run Bool
differs zero a b = ok false
differs (suc n) [] b = fault out_of_bounds
differs (suc n) (x ∷ a) [] = fault out_of_bounds
differs (suc n) (x ∷ a) (y ∷ b) = let more = differs n a b in if x == y then more else ok true

-- The text of the value, where the attribute is known.
unfoldable pub printed : (topic : ℕ) (old val : List ℕ) (len : ℕ) → Attrs → Run (List ℕ)
printed topic old val len attrs = elim (get_attr topic attrs) [
  | none ↦ ok old
  | some ea ↦ do text ← to_string ea.type val len; ok (elim text [ none ↦ old | some s ↦ s ])
]

-- The part that `add_dev_attr` and `upt_dev_attr` share: where the bytes differ they are copied, the
-- text is printed and the answer is true. `val` is the memory from the pointer on; the array has 32
-- bytes, to which the source does not compare `len`.
unfoldable pub refresh : AttrVal → (val : List ℕ) (len : ℕ) → Attrs → Run (Bool × AttrVal)
unfolding differs printed
refresh attr val len attrs = do
  changed ← differs len attr.val val
  if changed
      then (do
        bytes ← memcpy attr.val 0 val len
        text ← printed attr.topic attr.str val len attrs
        ok (true, record attr { val = bytes; str = text }))
      else ok (false, attr)

abbrev pub stamp : Bool → ℕ → Dev → Dev
stamp true now d = record d { update_ts = now }
stamp false now d = d

unfoldable pub add_dev_attr :
    Dev
    → (topic : ℕ) (val : List ℕ) (len now : ℕ) → Attrs
    → Memory
    → Run (Option AttrVal × Dev × Memory)
unfolding refresh
add_dev_attr d topic val len now attrs mem =
    if topic == 0 || len == 0
    then ok (none, d, mem)
    else let (got, mem') = malloc mem in
      if got
      then (do
        let fresh : AttrVal = record { len = len; val = replicate 32 0xFF; str = []; topic = topic }
        (changed, attr) ← refresh fresh val len attrs
        let d' : Dev = stamp changed now d
        ok (some attr, record d' { attr_map = hash_map_put d.attr_map topic attr }, mem'))
      else ok (none, d, mem')

unfoldable pub upt_dev_attr :
    Dev
    → (topic : ℕ) (val : List ℕ) (len now : ℕ) → Attrs
    → Memory
    → Run (Option AttrVal × Dev × Memory)
unfolding add_dev_attr refresh
upt_dev_attr d topic val len now attrs mem =
    if topic == 0 || len == 0
    then ok (none, d, mem)
    else let seen : Dev = record d { ts = now } in
      elim (hash_map_get d.attr_map topic) [
        | none ↦ add_dev_attr seen topic val len now attrs mem
        | some old ↦ do
          let sized : AttrVal = record old { len = len }
          (changed, attr) ← refresh sized val len attrs
          let d' : Dev = stamp changed now seen
          ok (some attr, record d' { attr_map = hash_map_put d.attr_map topic attr }, mem)
      ]

unfoldable pub store_dev : Dev → Edge → Edge
store_dev d e = record e { devs = hash_map_put e.devs d.oid d }

unfoldable pub fresh_dev : Dev → (now : ℕ) → Edge → Dev × Edge
unfolding store_dev drop_age
fresh_dev d now e =
    let d' : Dev = record d { ts = now } in
    (d', store_dev d' (record e { ages = drop_age d.oid e.ages ++ (d.oid ∷ []) }))
