-- ===== src/Dev/Bounds.antt =====
-- `upt_dev_attr` of src/dev.c with a value that is longer than the array of a device's attribute.
use ece_lib.Base.{
  ℕ, zero, suc, ◌<◌, ◌≡◌, refl, ◌≢◌, none, ◌⊎◌, inl, inr, true, false, ◌||◌, some, List, [], ◌∷◌,
  arith, length, ◌==◌, Bool-cases, Option-cases, replicate,
}
use ece_lib.Machine.{ok, fault, out_of_bounds, Memory, malloc, memcpy}
use ece_lib.HashMap.Keys.{int_key}
use ece_lib.HashMap.{hash_map_get}
use ece_lib.Attr.{Attrs}
use ece_lib.Dev.{AttrVal, Dev}
use ece_lib.Dev.Values.{differs, refresh, add_dev_attr, upt_dev_attr}

-- A comparison that is longer than the array finds a difference in it or reads on behind it.
differs_long :
    (n : ℕ) (a b : List ℕ)
    → length a < n
    → (differs n a b ≡ ok true) ⊎ (differs n a b ≡ fault out_of_bounds)
unfolding differs
differs_long zero a b h = absurd (omega arith)
differs_long (suc n) [] b h = inr refl
differs_long (suc n) (x ∷ a) [] h = inr refl
differs_long (suc n) (x ∷ a) (y ∷ b) h = elim (Bool-cases (x == y)) [
  | inl same ↦ rw same (differs_long n a b (omega arith))
  | inr other ↦ rw other (inl refl)
]

memcpy_long : (to from : List ℕ) (n : ℕ) → length to < n → memcpy to 0 from n ≡ fault out_of_bounds
unfolding memcpy
memcpy_long to from n h = ground arith

refresh_long :
    (attr : AttrVal) (val : List ℕ) (len : ℕ) (attrs : Attrs)
    → length attr.val < len
    → refresh attr val len attrs ≡ fault out_of_bounds
unfolding refresh
refresh_long attr val len attrs h = elim (differs_long len attr.val val h) [
  | inl differ ↦ rw (refresh, differ, memcpy_long attr.val val len h) refl
  | inr over ↦ rw (refresh, over) refl
]

-- A value of more than 32 bytes, of a topic that is not 0, overruns the array of the attribute, whether the device has the
-- attribute already, with its array of 32 bytes, or memory for a new one is there.
pub upt_dev_attr_overflow :
    (d : Dev) (topic : ℕ) (val : List ℕ) (len now : ℕ) (attrs : Attrs) (mem : Memory)
    → topic ≢ 0
    → 32 < len
    → (hash_map_get d.attr_map topic ≡ none → (malloc mem).0 ≡ true)
    → ((old : AttrVal) → hash_map_get d.attr_map topic ≡ some old → length old.val ≡ 32)
    → upt_dev_attr d topic val len now attrs mem ≡ fault out_of_bounds
unfolding upt_dev_attr add_dev_attr
upt_dev_attr_overflow d topic val len now attrs mem ne long got arrays =
    let taken : (topic == 0 || len == 0) ≡ false = ground (arith, ne) in
    elim (Option-cases (hash_map_get d.attr_map topic)) [
      | inl absent ↦
          let over : refresh
                (record { len = len; val = replicate 32 0xFF; str = []; topic = topic }) val len
                attrs
              ≡ fault out_of_bounds =
            refresh_long _ val len attrs (omega arith) in
          rw (upt_dev_attr, taken, absent, add_dev_attr, taken, got absent, over) refl
      | inr (old, there) ↦
          let size : length old.val ≡ 32 = arrays old there in
          let over : refresh (record old { len = len }) val len attrs ≡ fault out_of_bounds =
            refresh_long _ val len attrs (omega arith) in
          rw (upt_dev_attr, taken, there, over) refl
    ]
