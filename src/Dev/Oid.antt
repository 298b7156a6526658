-- ===== src/Dev/Oid.antt =====
-- Which addresses `get_dev_oid` of src/dev.c can take.
use ece_lib.Base.{
  if◌then◌else◌, ℕ, zero, suc, ◌+◌, ◌*◌, ◌/◌, ◌%◌, ◌≤◌, ◌<◌, ◌^◌, ◌≡◌, refl, List, [], ◌∷◌, ◌++◌,
  arith, length, length-append, ltb, lt→ltb, Bool-cases, inl, inr,
}
use ece_lib.Machine.{ok, null_pointer, Memory, malloc, fault, out_of_bounds, Returns}
use ece_lib.HashMap.Keys.{IsOid}
use ece_lib.Md5.{hex_byte, hex_digit, hex_text, digest}
use ece_lib.Md5.Padding.{digest-shape, md5_string_lem}
use ece_lib.Dev.{hex_fixed, hex_type, oid_loop, get_dev_oid}

length-hex_fixed : (w n : ℕ) → length (hex_fixed w n) ≡ w
unfolding hex_fixed
length-hex_fixed zero n = refl
length-hex_fixed (suc w) n = omega (
  arith,
  length-append (hex_fixed w (n / 16)) (hex_digit (n % 16) ∷ []),
  length-hex_fixed w (n / 16),
)

length-hex_type : (type : ℕ) → type < 2 ^ 16 → length (hex_type type) ≡ 4
unfolding hex_type
length-hex_type type h = rw (lt→ltb type (16 ^ 4) (omega arith)) (length-hex_fixed 4 type)

oid_loop_fits :
    (n : ℕ) (tmp addr : List ℕ)
    → n ≤ length addr
    → length tmp + 2 * n < 256
    → Returns (oid_loop n tmp addr) λ text. length text ≡ length tmp + 2 * n
unfolding oid_loop hex_byte
oid_loop_fits zero tmp addr h fits = (tmp, refl, omega arith)
oid_loop_fits (suc n) tmp [] h fits = absurd (omega arith)
oid_loop_fits (suc n) tmp (b ∷ addr) h fits =
    let long : length (tmp ++ hex_byte b) ≡ length tmp + 2 = length-append tmp (hex_byte b) in
    let (text, run, e) = oid_loop_fits n (tmp ++ hex_byte b) addr (omega arith) (omega arith) in
    (text, rw (lt→ltb (length tmp + 2) 256 (omega arith)) run, omega arith)

oid_loop_overflows :
    (n : ℕ) (tmp addr : List ℕ)
    → 255 < length tmp + 2 * n
    → length tmp < 256
    → oid_loop n tmp addr ≡ fault out_of_bounds
unfolding oid_loop hex_byte
oid_loop_overflows zero tmp addr h low = absurd (omega arith)
oid_loop_overflows (suc n) tmp [] h low = refl
oid_loop_overflows (suc n) tmp (b ∷ addr) h low =
    let long : length (tmp ++ hex_byte b) ≡ length tmp + 2 = length-append tmp (hex_byte b) in
    elim (Bool-cases (ltb (length tmp + 2) 256)) [
      | inl room ↦
          rw room (oid_loop_overflows n (tmp ++ hex_byte b) addr (omega arith) (ground arith))
      | inr full ↦ rw full refl
    ]

-- An address of at most 125 bytes that are there to be read has an identifier, of 32 characters,
-- where the type of access has 16 bits: it is returned where memory is there, and else the digest
-- writes through `NULL`.
pub get_dev_oid-IsOid :
    (type : ℕ) (addr : List ℕ) (addr_len : ℕ)
    → type < 2 ^ 16
    → addr_len ≤ length addr
    → addr_len ≤ 125
    → (oid : List ℕ) × IsOid oid
      × ((mem : Memory)
          → get_dev_oid type addr addr_len mem
            ≡ (if (malloc mem).0 then ok (oid, (malloc mem).1) else fault null_pointer))
unfolding get_dev_oid
get_dev_oid-IsOid type addr addr_len small there short =
    let four = length-hex_type type small in
    let (text, run, _) = oid_loop_fits addr_len (hex_type type) addr there (omega arith) in
    (
      hex_text (digest text),
      (digest-shape text).0,
      λ mem. rw (get_dev_oid, run) (md5_string_lem text mem),
    )

-- A longer address, of more than 125 bytes, overruns the buffer of 256 bytes in which its text is
-- built, or the memory that it is read from, where the type of access has 16 bits.
pub get_dev_oid_overflow :
    (type : ℕ) (addr : List ℕ) (addr_len : ℕ)
    → type < 2 ^ 16
    → 125 < addr_len
    → (mem : Memory) → get_dev_oid type addr addr_len mem ≡ fault out_of_bounds
unfolding get_dev_oid
get_dev_oid_overflow type addr addr_len small long mem =
    let four = length-hex_type type small in
    rw (get_dev_oid, oid_loop_overflows addr_len (hex_type type) addr (omega arith) (omega arith))
      refl
