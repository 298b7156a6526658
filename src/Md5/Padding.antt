-- ===== src/Md5/Padding.antt =====
-- What lib/md5.c needs of its padding, and the shape of the text that it prints.
use ece_lib.Base.{
  ℕ, zero, suc, ◌+◌, ◌-◌, ◌*◌, ◌/◌, ◌%◌, ◌≤◌, ◌<◌, ◌≡◌, refl, List, [], ◌∷◌, ◌++◌, arith, length,
  length-append, length-replicate, replicate, take, take-append, All, Bool-cases, inl, inr, ltb,
  ◌^◌, ◌⊎◌, if◌then◌else◌,
}
use ece_lib.Machine.{u32}
use ece_lib.Wire.{store32}
use ece_lib.Machine.{ok, fault, null_pointer, Memory, malloc}
use ece_lib.Md5.{
  digest, new_len_loop, new_len, padded, to_bytes, md5, hex_digit, hex_byte, hex_text, md5_string,
}

-- Where a number that is 56 modulo 64 lies within reach the loop stops at one.
new_len_loop_lem :
    (fuel n s : ℕ)
    → s ≤ fuel
    → (n + s) % 64 ≡ 56
    → (new_len_loop fuel n % 64 ≡ 56) × (n ≤ new_len_loop fuel n) × (new_len_loop fuel n ≤ n + s)
unfolding new_len_loop
new_len_loop_lem zero n s h e = (omega arith, omega arith, omega arith)
new_len_loop_lem (suc fuel) n zero h e = ground arith
new_len_loop_lem (suc fuel) n (suc s) h e =
    ground (arith, new_len_loop_lem fuel (n + 1) s (omega arith) (omega arith))

-- The fuel of `new_len` is enough for every length: the loop stops at the first number above it that
-- is 56 modulo 64.
pub new_len_lem : (n : ℕ) → (new_len n % 64 ≡ 56) × (n < new_len n) × (new_len n ≤ n + 64)
unfolding new_len
new_len_lem n =
    let (e, low, high) =
      new_len_loop_lem 63 (n + 1) ((119 - n % 64) % 64) (omega arith) (omega arith) in
    (e, omega arith, omega arith)

length-to_bytes : (v : ℕ) → length (to_bytes v) ≡ 4
unfolding to_bytes store32
length-to_bytes v = refl

-- Every message is padded to whole chunks of 64 bytes, one for each round of the chunk loop, with
-- less than 73 bytes more than it has, and it stands unchanged at their front.
pub padded-chunks :
    (msg : List ℕ)
    → (length (padded msg) ≡ 64 * ((new_len (length msg) + 63) / 64))
      × (length (padded msg) ≤ length msg + 72)
      × (take (length msg) (padded msg) ≡ msg)
unfolding padded
padded-chunks msg =
    let n = length msg in
    let (e, low, high) = new_len_lem n in
    let whole : length (padded msg) ≡ new_len n + 8 =
      simp (length-append, length-replicate, length-to_bytes) (omega arith) in
    (
      omega arith,
      omega arith,
      take-append msg (
          (0x80 ∷ replicate (new_len n - (n + 1)) 0)
          ++ (to_bytes (u32 (n * 8)) ++ to_bytes (u32 (n / 2 ^ 29)))),
    )

-- A character of a hexadecimal number in lower case.
abbrev pub IsHexDigit : ℕ → Type 0
IsHexDigit c = ((47 < c) × (c < 58)) ⊎ ((96 < c) × (c < 103))

hex_digit-IsHexDigit : (n : ℕ) → n < 16 → IsHexDigit (hex_digit n)
unfolding hex_digit
hex_digit-IsHexDigit n h = elim (Bool-cases (ltb n 10)) [
  | inl low ↦ rw low (inl (ground arith))
  | inr high ↦ rw high (inr (ground arith))
]

hex_text_lem :
    (bytes : List ℕ)
    → All (λ b. b < 256) bytes
    → (length (hex_text bytes) ≡ 2 * length bytes) × All IsHexDigit (hex_text bytes)
unfolding hex_text hex_byte
hex_text_lem [] h = (omega arith, tt)
hex_text_lem (b ∷ bytes) h =
    let (long, digits) = hex_text_lem bytes h.1 in
    (
      omega arith,
      (
        hex_digit-IsHexDigit (b / 16) (omega (arith, h.0)),
        (hex_digit-IsHexDigit (b % 16) (omega arith), digits),
      ),
    )

digest_bytes : (msg : List ℕ) → (length (digest msg) ≡ 16) × All (λ b. b < 256) (digest msg)
unfolding digest to_bytes store32
digest_bytes msg = (refl, ground arith)

-- Every digest is printed as 32 hexadecimal digits, so that the identifiers that are made of it are
-- all of one length.
pub digest-shape :
    (msg : List ℕ) → (length (hex_text (digest msg)) ≡ 32) × All IsHexDigit (hex_text (digest msg))
digest-shape msg =
    let (long, bytes) = digest_bytes msg in
    let (text, digits) = hex_text_lem (digest msg) bytes in (omega arith, digits)

-- The digest is printed where memory is there, and else `md5` writes through `NULL`.
pub md5_string_lem :
    (msg : List ℕ) (mem : Memory)
    → md5_string msg mem
      ≡ (if (malloc mem).0 then ok (hex_text (digest msg), (malloc mem).1) else fault null_pointer)
unfolding md5_string md5
md5_string_lem msg mem = elim (Bool-cases (malloc mem).0) [
  | inl got ↦ rw got refl
  | inr out ↦ rw out refl
]
