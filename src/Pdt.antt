-- ===== src/Pdt.antt =====
-- src/pdt.c with inc/pdt.h: the products and the attributes that their tokens refer to. (`del_pdt`,
-- which deletes the formats of a product first, is in `G1Fmt`.)
--
-- A product is stored in `g_pdt_map` itself, and a write through a pointer to it is a `hash_map_put`
-- under its topic. `addr` is the address that `malloc` returned, by which devices refer to their
-- product; no address is given twice, so that a device's pointer to a product that has been freed
-- can be told from any other. The list of devices `head` is kept with the devices, in `Dev`.
pub mod Refs
pub mod AddDel
use ece_lib.Base.{
  ℕ, ◌+◌, ◌-◌, ◌^◌, Bool, true, false, Option, none, some, List, [], ◌∷◌, ◌==◌, if◌then◌else◌,
}
use ece_lib.Machine.{Run, ok, fault, ◌>>=◌, Memory, malloc, u64}
use ece_lib.HashMap.Keys.{int_key}
use ece_lib.HashMap.{
  HashMap, hash_map_init, hash_map_get, hash_map_put, hash_map_remove, hash_map_contains_key,
}
use ece_lib.Attr.{EdgeAttr, Attrs, rejects, add_attr, del_attr, removed}
use ece_lib.Token.{G1Fmt}

pub record PdtAttr : Type 0 where
  pub ref : ℕ
  pub topic : ℕ

pub record Pdt : Type 0 where
  pub addr : ℕ
  pub topic : ℕ
  pub endian : ℕ
  pub attr_map : HashMap ℕ PdtAttr
  pub fmt_map : HashMap ℕ G1Fmt

-- `g_attr_map`, `g_pdt_map`, the outcomes of the coming `malloc` calls and the next unused address.
pub record Catalog : Type 0 where
  pub attrs : Attrs
  pub pdts : HashMap ℕ Pdt
  pub mem : Memory
  pub next : ℕ

unfoldable pub pdt_init : HashMap ℕ Pdt
pdt_init = hash_map_init 16

-- The attribute of the product, made if it is not there, with one reference more; `none` where
-- memory is out.
unfoldable pub hold_attr : Pdt → ℕ → Memory → Option (PdtAttr × Pdt) × Memory
hold_attr p topic mem = elim (hash_map_get p.attr_map topic) [
  | none ↦
      let (got, mem') = malloc mem in
      let attr : PdtAttr = record { ref = 1; topic = topic } in
      if got
      then (some (attr, record p { attr_map = hash_map_put p.attr_map topic attr }), mem')
      else (none, mem')
  | some old ↦
      let attr : PdtAttr = record old { ref = u64 (old.ref + 1) } in
      (some (attr, record p { attr_map = hash_map_put p.attr_map topic attr }), mem)
]

-- `attr->ref--`, and the removal at 0.
unfoldable pub release_attr : Pdt → ℕ → PdtAttr → Run Pdt
release_attr p topic attr =
    let left : ℕ = u64 (attr.ref + 2 ^ 64 - 1) in
    if left == 0
    then (do m ← removed (hash_map_remove p.attr_map topic); ok (record p { attr_map = m }))
    else ok (record p { attr_map = hash_map_put p.attr_map topic (record attr { ref = left }) })

-- The second half of `add_pdt_attr`: the attribute itself, and the way back where it is refused.
unfoldable pub add_held_attr :
    Pdt
    → PdtAttr
    → (topic type len : ℕ) → Attrs
    → Memory
    → Run (Option EdgeAttr × Pdt × Attrs × Memory)
add_held_attr p attr topic type len attrs mem =
    let (eattr, attrs', mem') = add_attr topic type len attrs mem in
    elim eattr [
      | some a ↦ ok (some a, p, attrs', mem')
      | none ↦ do q ← release_attr p topic attr; ok (none, q, attrs', mem')
    ]

unfoldable pub add_pdt_attr :
    Pdt → (topic type len : ℕ) → Attrs → Memory → Run (Option EdgeAttr × Pdt × Attrs × Memory)
add_pdt_attr p topic type len attrs mem =
    if rejects topic type len
    then ok (none, p, attrs, mem)
    else let (held, mem') = hold_attr p topic mem in
      elim held [
        | none ↦ ok (none, p, attrs, mem')
        | some (attr, p') ↦ add_held_attr p' attr topic type len attrs mem'
      ]

unfoldable pub del_pdt_attr : Pdt → ℕ → Attrs → Run (Pdt × Attrs)
del_pdt_attr p topic attrs =
    if topic == 0 then ok (p, attrs) else elim (hash_map_get p.attr_map topic) [
      | none ↦ ok (p, attrs)
      | some attr ↦ do
        p' ← release_attr p topic attr
        attrs' ← del_attr topic attrs
        ok (p', attrs')
    ]

unfoldable pub get_pdt : ℕ → Catalog → Option Pdt
get_pdt topic c = hash_map_get c.pdts topic

unfoldable pub add_pdt : (topic endian : ℕ) → Catalog → Option Pdt × Catalog
add_pdt topic endian c =
    if hash_map_contains_key c.pdts topic
    then (none, c)
    else let (got, mem') = malloc c.mem in
      let p : Pdt = record {
        addr = c.next;
        topic = topic;
        endian = endian;
        attr_map = hash_map_init 4;
        fmt_map = hash_map_init 4;
      } in
      if got
      then (some p, record c { pdts = hash_map_put c.pdts topic p; mem = mem'; next = c.next + 1 })
      else (none, record c { mem = mem' })
