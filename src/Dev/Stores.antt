-- ===== src/Dev/Stores.antt =====
-- `upt_dev_attr` of src/dev.c with a value that fits the array of an attribute.
use ece_lib.Base.{
  take-take_append, ℕ, zero, suc, ◌+◌, ◌*◌, ◌≤◌, ◌<◌, ◌≡◌, refl, ◌≢◌, ◌^◌, ◌⊎◌, inl, inr, ◌∙◌, Bool,
  true, false, ◌||◌, Option, none, some, List, [], ◌∷◌, ◌++◌, arith, length, le→leb, ◌==◌, ==_iff,
  Bool-cases, Option-cases, replicate, take, drop, length-append, length-take, length-drop,
}
use ece_lib.Machine.{ok, Returns, Memory, malloc, memcpy}
use ece_lib.Wire.{read_be, decimal}
use ece_lib.HashMap.Keys.{int_key, int_cmp_iff}
use ece_lib.HashMap.{hash_map_get, hash_map_put}
use ece_lib.HashMap.Invariant.{IsValid}
use ece_lib.HashMap.Put.{put-Written}
use ece_lib.Attr.{EdgeAttr, Attrs, get_attr, edge_attr_num, num_to_value, num_to_string, to_string}
use ece_lib.Dev.{AttrVal, Dev}
use ece_lib.Dev.Values.{differs, printed, refresh, stamp, add_dev_attr, upt_dev_attr}

differs_within :
    (n : ℕ) (a b : List ℕ)
    → n ≤ length a
    → n ≤ length b
    → (differs n a b ≡ ok true) ⊎ (differs n a b ≡ ok false) × (take n a ≡ take n b)
unfolding differs
differs_within zero a b h k = inr (refl, refl)
differs_within (suc n) [] b h k = absurd (omega arith)
differs_within (suc n) (x ∷ a) [] h k = absurd (omega arith)
differs_within (suc n) (x ∷ a) (y ∷ b) h k = elim (Bool-cases (x == y)) [
  | inr other ↦ rw other (inl refl)
  | inl same ↦ elim (differs_within n a b (omega arith) (omega arith)) [
    | inl differ ↦ rw (same, differ) (inl refl)
    | inr (equal, front) ↦
        let first : x ≡ y = (==_iff x y).0 same in
        rw (same, equal) (inr (refl, λ i. first i ∷ front i))
  ]
]

read_be-Returns :
    (n acc : ℕ) (bytes : List ℕ) → n ≤ length bytes → Returns (read_be n acc bytes) λ _. Unit {0}
unfolding read_be
read_be-Returns zero acc bytes h = (acc, refl, tt)
read_be-Returns (suc n) acc [] h = absurd (omega arith)
read_be-Returns (suc n) acc (b ∷ bytes) h = read_be-Returns n (acc * 256 + b) bytes (omega arith)

num_to_value-Returns :
    (bytes : List ℕ) (len : ℕ) → len ≤ length bytes → Returns (num_to_value bytes len) λ _. Unit {0}
unfolding num_to_value
num_to_value-Returns bytes len h = elim (Bool-cases (len == 1)) [
  | inl one ↦ rw one (read_be-Returns 1 0 bytes (ground arith))
  | inr n1 ↦ elim (Bool-cases (len == 2)) [
    | inl two ↦ rw (n1, two) (read_be-Returns 2 0 bytes (ground arith))
    | inr n2 ↦ elim (Bool-cases (len == 4)) [
      | inl four ↦ rw (n1, n2, four) (read_be-Returns 4 0 bytes (ground arith))
      | inr n4 ↦ rw (n1, n2, n4) (0, refl, tt)
    ]
  ]
]

-- An attribute that is not known, or a number.
abbrev pub IsPrintable : Option EdgeAttr → Type 0
IsPrintable none = Unit
IsPrintable (some ea) = ea.type ≡ edge_attr_num

printed-Returns :
    (topic : ℕ) (old val : List ℕ) (len : ℕ) (attrs : Attrs)
    → len ≢ 0
    → len ≤ length val
    → IsPrintable (get_attr topic attrs)
    → Returns (printed topic old val len attrs) λ _. Unit {0}
unfolding printed to_string num_to_string
printed-Returns topic old val len attrs ne there is = elim (Option-cases (get_attr topic attrs)) [
  | inl absent ↦ (old, rw (printed, absent) refl, tt)
  | inr (ea, found) ↦
      let number : ea.type ≡ edge_attr_num = rw found at is in
      let (num, run, _) = num_to_value-Returns val len there in
      let some_len : (len == 0) ≡ false = ground (arith, ne) in
      (decimal num, rw (printed, found, number, some_len, run) refl, tt)
]

memcpy_within :
    (to from : List ℕ) (n : ℕ)
    → n ≤ length from
    → n ≤ length to
    → Returns (memcpy to 0 from n) λ r. (take n r ≡ take n from) × (length r ≡ length to)
unfolding memcpy
memcpy_within to from n h k =
    let end : 0 + n ≡ n = omega arith in
    (
      take n from ++ drop n to,
      rw (end, le→leb n (length from) h, le→leb n (length to) k) refl,
      (
        take-take_append n from (drop n to) h,
        length-append (take n from) (drop n to)
            ∙ omega (arith, length-take n from, length-drop n to),
      ),
    )

-- The attribute holds the value, and is otherwise as it was, but for the text.
record Fresh (attr : AttrVal) (val : List ℕ) (len : ℕ) (a : AttrVal) : Type 0 where
  front : take len a.val ≡ take len val
  whole : length a.val ≡ length attr.val
  rest : (a.len ≡ attr.len) × (a.topic ≡ attr.topic)

refresh-Fresh :
    (attr : AttrVal) (val : List ℕ) (len : ℕ) (attrs : Attrs)
    → len ≢ 0
    → len ≤ length val
    → len ≤ length attr.val
    → IsPrintable (get_attr attr.topic attrs)
    → Returns (refresh attr val len attrs) λ (_, a). Fresh attr val len a
unfolding refresh
refresh-Fresh attr val len attrs ne there fits is =
    elim (differs_within len attr.val val fits there) [
      | inl differ ↦
          let (bytes, copied, (front, whole)) = memcpy_within attr.val val len there fits in
          let (text, run, _) = printed-Returns attr.topic attr.str val len attrs ne there is in
          (
            (true, record attr { val = bytes; str = text }),
            rw (refresh, differ, copied, run) refl,
            record { front = front; whole = whole; rest = (refl, refl) },
          )
      | inr (equal, front) ↦ (
        (false, attr),
        rw (refresh, equal) refl,
        record { front = front; whole = refl; rest = (refl, refl) },
      )
    ]

-- What `upt_dev_attr` has done: the attribute that it returns is the one that the device now has
-- under the topic, its first bytes are the value, and the device was heard of just now.
pub record Stored (topic : ℕ) (val : List ℕ) (len now : ℕ) (r : Option AttrVal) (d' : Dev)
    : Type 0 where
  pub attr : AttrVal
  pub returned : r ≡ some attr
  pub found : hash_map_get d'.attr_map topic ≡ some attr
  pub value : take len attr.val ≡ take len val
  pub array : length attr.val ≡ 32
  pub long : attr.len ≡ len
  pub heard : d'.ts ≡ now
  pub valid : IsValid d'.attr_map

stamp-ts : (b : Bool) (now : ℕ) (d : Dev) → (stamp b now d).ts ≡ d.ts
stamp-ts true now d = refl
stamp-ts false now d = refl

-- The write of the attribute to the map of the device.
put-Stored :
    (d : Dev) (topic : ℕ) (val : List ℕ) (len now : ℕ) (a : AttrVal) (changed : Bool)
    → IsValid d.attr_map
    → topic < 2 ^ 32
    → take len a.val ≡ take len val
    → length a.val ≡ 32
    → a.len ≡ len
    → d.ts ≡ now
    → Stored topic val len now
        (some a)
        (record (stamp changed now d) { attr_map = hash_map_put d.attr_map topic a })
put-Stored d topic val len now a changed v h front whole long heard =
    let put = put-Written d.attr_map v topic h a in
    record {
      attr = a;
      returned = refl;
      found = put.reads topic h ∙ rw ((int_cmp_iff topic topic h h).1 refl) refl;
      value = front;
      array = whole;
      long = long;
      heard = stamp-ts changed now d ∙ heard;
      valid = put.valid;
    }

-- A value of one to 32 bytes that can be read, of a topic that is not 0, is stored, in the attribute
-- that the device has, of the topic and with its array of 32 bytes, or, where memory is there, in a new
-- one; the call never faults where the attribute is a number or not known.
pub upt_dev_attr-Stored :
    (d : Dev) (topic : ℕ) (val : List ℕ) (len now : ℕ) (attrs : Attrs) (mem : Memory)
    → IsValid d.attr_map
    → topic ≢ 0
    → topic < 2 ^ 32
    → len ≢ 0
    → len ≤ 32
    → len ≤ length val
    → (hash_map_get d.attr_map topic ≡ none → (malloc mem).0 ≡ true)
    → IsPrintable (get_attr topic attrs)
    → ((old : AttrVal)
        → hash_map_get d.attr_map topic ≡ some old
        → (length old.val ≡ 32) × (old.topic ≡ topic))
    → Returns
        (upt_dev_attr d topic val len now attrs mem)
        λ (r, d', _). Stored topic val len now r d'
unfolding upt_dev_attr add_dev_attr
upt_dev_attr-Stored d topic val len now attrs mem v ne in_range some_len fits there got is arrays =
    let taken : (topic == 0 || len == 0) ≡ false = ground (arith, ne, some_len) in
    let seen : Dev = record d { ts = now } in
    elim (Option-cases (hash_map_get d.attr_map topic)) [
      | inl absent ↦
          let fresh : AttrVal = record {
            len = len;
            val = replicate 32 0xFF;
            str = [];
            topic = topic;
          } in
          let ((changed, a), run, f) = refresh-Fresh fresh val len attrs some_len there fits is in
          (
            (
              some a,
              record (stamp changed now seen) { attr_map = hash_map_put d.attr_map topic a },
              (malloc mem).1,
            ),
            rw (upt_dev_attr, taken, absent, add_dev_attr, taken, got absent, run) refl,
            put-Stored seen topic val len now a changed v in_range f.front f.whole f.rest.0 refl,
          )
      | inr (old, at) ↦
          let (size, own) = arrays old at in
          let old' : AttrVal = record old { len = len } in
          let ((changed, a), run, f) =
            refresh-Fresh old' val len attrs some_len there (omega arith) (rw own is) in
          (
            (
              some a,
              record (stamp changed now seen) { attr_map = hash_map_put d.attr_map topic a },
              mem,
            ),
            rw (upt_dev_attr, taken, at, run) refl,
            put-Stored seen topic val len now a changed v in_range f.front (f.whole ∙ size) f.rest.0
                refl,
          )
    ]
