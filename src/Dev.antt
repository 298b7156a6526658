-- ===== src/Dev.antt =====
-- The devices of src/dev.c with inc/dev.h: identifiers, `add_dev`, `get_dev` and `del_dev`.
--
-- A device is stored in `g_dev_map` itself, and a pointer to it is its identifier. `pdt` is the
-- address of its product: `del_pdt` frees the product and leaves the pointer. The list nodes
-- `age_list` and `list` are the orders `ages` and `members`; `members` holds the lists of all the
-- products, each entry with the address of the product on whose list it stands. `time` gives one
-- value, `now`, in the course of one call.
pub mod Values
pub mod Ageing
pub mod Oid
pub mod Bounds
pub mod Stores
pub mod Clear
pub mod Alive
pub mod Live
pub mod Aged
pub mod Exact
pub mod Order
pub mod Kept
pub mod Deleted
pub mod Updated
use ece_lib.Base.{
  ℕ, zero, suc, ◌+◌, ◌-◌, ◌/◌, ◌%◌, ◌^◌, Bool, true, false, not, ◌&&◌, ◌||◌, Option, none, some,
  List, [], ◌∷◌, ◌++◌, ◌==◌, ltb, if◌then◌else◌, length, foldl,
}
use ece_lib.Machine.{Memory, Run, ok, fault, out_of_bounds, use_after_free, ◌>>=◌, malloc}
use ece_lib.HashMap.Keys.{HashKey, int_key, str_key}
use ece_lib.HashMap.{
  HashMap, hash_map_init, hash_map_get, hash_map_put, hash_map_remove, hash_map_contains_key,
  hash_map_work,
}
use ece_lib.Attr.{removed}
use ece_lib.Pdt.{Pdt, Catalog, get_pdt}
use ece_lib.Md5.{hex_digit, hex_byte, md5_string}

-- `val` is the array of 32 bytes, `str` the text in the array `str`.
pub record AttrVal : Type 0 where
  pub len : ℕ
  pub val : List ℕ
  pub str : List ℕ
  pub topic : ℕ

pub record Dev : Type 0 where
  pub oid : List ℕ
  pub port : ℕ
  pub attr_map : HashMap ℕ AttrVal
  pub ts : ℕ
  pub update_ts : ℕ
  pub report_ts : ℕ
  pub pdt : ℕ

-- The catalogue, `g_dev_map`, `g_dev_age_head`, the lists of devices of the products, and the two
-- static variables `last_sec`.
pub record Edge : Type 0 where
  pub catalog : Catalog
  pub devs : HashMap (List ℕ) Dev
  pub ages : List (List ℕ)
  pub members : List (ℕ × List ℕ)
  pub last_update : ℕ
  pub last_ageing : ℕ

unfoldable pub dev_init : Catalog → Edge
dev_init c = record {
  catalog = c;
  devs = hash_map_init 16;
  ages = [];
  members = [];
  last_update = 0;
  last_ageing = 0;
}

-- The digits of a number, `w` of them.
unfoldable pub hex_fixed : ℕ → ℕ → List ℕ
unfolding hex_digit
hex_fixed zero n = []
hex_fixed (suc w) n = hex_fixed w (n / 16) ++ (hex_digit (n % 16) ∷ [])

-- "%4.4x" of an `unsigned int`.
unfoldable pub hex_type : ℕ → List ℕ
unfolding hex_fixed
hex_type n =
    if ltb n (16 ^ 4)
    then hex_fixed 4 n
    else if ltb n (16 ^ 5)
    then hex_fixed 5 n
    else if ltb n (16 ^ 6)
    then hex_fixed 6 n
    else if ltb n (16 ^ 7)
    then hex_fixed 7 n
    else hex_fixed 8 n

-- The loop of `get_dev_oid` over `n` bytes from the pointer on. `sprintf` of a buffer onto itself is
-- taken to append, which is what the source relies on; the text and its NUL must fit in the
-- 256 bytes of `tmp`, which the source does not check.
unfoldable pub oid_loop : (n : ℕ) (tmp addr : List ℕ) → Run (List ℕ)
unfolding hex_byte
oid_loop zero tmp addr = ok tmp
oid_loop (suc n) tmp [] = fault out_of_bounds
oid_loop (suc n) tmp (b ∷ addr) =
    let more = oid_loop n (tmp ++ hex_byte b) addr in
    if ltb (length tmp + 2) 256 then more else fault out_of_bounds

unfoldable pub get_dev_oid :
    (type : ℕ) (addr : List ℕ) (addr_len : ℕ) → Memory → Run (List ℕ × Memory)
unfolding oid_loop hex_type
get_dev_oid type addr addr_len mem = do
  tmp ← oid_loop addr_len (hex_type type) addr
  md5_string tmp mem

abbrev pub with_memory : Edge → Memory → Edge
with_memory e mem = record e { catalog = record e.catalog { mem = mem } }

-- `__add_dev`
unfoldable pub add_new_dev : Pdt → List ℕ → (port now : ℕ) → Edge → Option Dev × Edge
add_new_dev p oid port now e =
    if hash_map_contains_key e.devs oid
    then (none, e)
    else let (got, mem') = malloc e.catalog.mem in
      let c' : Catalog = record e.catalog { mem = mem' } in
      let d : Dev = record {
        oid = oid;
        port = port;
        attr_map = hash_map_init 16;
        ts = now;
        update_ts = 0;
        report_ts = 0;
        pdt = p.addr;
      } in
      if got
      then (
        some d,
        record e {
          catalog = c';
          devs = hash_map_put e.devs oid d;
          ages = e.ages ++ (oid ∷ []);
          members = e.members ++ ((p.addr, oid) ∷ []);
        },
      )
      else (none, record e { catalog = c' })

-- The parameter `port` (`module` in the source) is an `unsigned short`.
unfoldable pub add_dev :
    (port : ℕ) (addr : List ℕ) (addr_len type topic now : ℕ) → Edge → Run (Option Dev × Edge)
unfolding add_new_dev
add_dev port addr addr_len type topic now e =
    if addr_len == 0 || topic == 0 then ok (none, e) else elim (get_pdt topic e.catalog) [
      | none ↦ ok (none, e)
      | some p ↦ do
        (oid, mem) ← get_dev_oid type addr addr_len e.catalog.mem
        ok (add_new_dev p oid (port % 2 ^ 16) now (with_memory e mem))
    ]

unfoldable pub get_dev : (type : ℕ) (addr : List ℕ) (addr_len : ℕ) → Edge → Run (Option Dev × Edge)
get_dev type addr addr_len e = do
  (oid, mem) ← get_dev_oid type addr addr_len e.catalog.mem
  ok (hash_map_get e.devs oid, with_memory e mem)

-- Whether the product at the address has not been freed.
unfoldable pub is_live : ℕ → HashMap ℕ Pdt → Bool
is_live addr pdts = hash_map_work pdts (λ b (_, p). b || (p.addr == addr)) false

-- The devices on the list of a product, in order.
unfoldable pub list_at : ℕ → List (ℕ × List ℕ) → List (List ℕ)
list_at addr [] = []
list_at addr (m ∷ rest) = if m.0 == addr then m.1 ∷ list_at addr rest else list_at addr rest

abbrev pub last_is : List ℕ → List (List ℕ) → Bool
last_is oid [] = false
last_is oid (x ∷ []) = str_key.same oid x
last_is oid (x ∷ y ∷ rest) = last_is oid (y ∷ rest)

-- Whether a neighbour of the device on its product's list is the head in the product itself.
unfoldable pub at_head : List ℕ → List (List ℕ) → Bool
at_head oid [] = false
at_head oid (x ∷ rest) = str_key.same oid x || last_is oid (x ∷ rest)

-- Without the node of the device.
unfoldable pub drop_age : List ℕ → List (List ℕ) → List (List ℕ)
drop_age oid [] = []
drop_age oid (x ∷ rest) = if str_key.same oid x then rest else x ∷ drop_age oid rest

unfoldable pub drop_member : List ℕ → List (ℕ × List ℕ) → List (ℕ × List ℕ)
drop_member oid [] = []
drop_member oid (m ∷ rest) = if str_key.same oid m.1 then rest else m ∷ drop_member oid rest

-- `list_del(&dev->list)`: it writes to both neighbours, the product's `head` among them.
unfoldable pub leave_product : Dev → Edge → Run Edge
unfolding drop_member at_head list_at is_live
leave_product d e =
    if at_head d.oid (list_at d.pdt e.members) && not (is_live d.pdt e.catalog.pdts)
    then fault use_after_free
    else ok (record e { members = drop_member d.oid e.members })

-- `hash_map_work(&dev->attr_map, del_dev_attr_hash)`
unfoldable pub del_dev_attrs : HashMap ℕ AttrVal → Run (HashMap ℕ AttrVal)
del_dev_attrs m = hash_map_work m (λ r (k, _). do m' ← r; removed (hash_map_remove m' k)) (ok m)

-- `__del_dev`
unfoldable pub del_dev_internal : Dev → Edge → Run Edge
unfolding leave_product del_dev_attrs drop_age
del_dev_internal d e = do
  e' ← leave_product d e
  _ ← del_dev_attrs d.attr_map
  devs ← removed (hash_map_remove e.devs d.oid)
  ok (record e' { ages = drop_age d.oid e.ages; devs = devs })

unfoldable pub del_dev : (type : ℕ) (addr : List ℕ) (addr_len : ℕ) → Edge → Run Edge
unfolding get_dev
del_dev type addr addr_len e = if addr_len == 0 then ok e else do
  (found, e') ← get_dev type addr addr_len e
  elim found [ none ↦ ok e' | some d ↦ del_dev_internal d e' ]
