-- ===== src/HashMap/Keys.antt =====
-- The function pointers that `hash_map_init` stores, `comparator` and `hash_func`, and the two
-- pairs of them that inc/hash_map.h provides: `int_cmp` with `int_hash_func` for 32-bit topics and
-- keys, `str_cmp` with `str_hash_func` for NUL-terminated texts.
use ece_lib.Base.{
  ℕ, ◌+◌, ◌-◌, ◌*◌, ◌/◌, ◌%◌, ◌^◌, ◌<◌, ◌≡◌, refl, ◌↔◌, Bool, true, false, List, [], ◌∷◌, arith,
  ◌==◌, ltb, length, if◌then◌else◌, bit_xor, bit_and, ◌&&◌,
}

-- What inc/hash_map.h asks of the pair, on the keys that a caller may use.
pub record HashKey (K : Type 0) : Type 1 where
  -- `comparator(l, r) == 0`
  pub same : K → K → Bool
  pub hash : K → ℕ → ℕ
  pub IsKey : K → Type 0
  pub same_iff : (a b : K) → IsKey a → IsKey b → (same a b ≡ true) ↔ (a ≡ b)
  pub hash-lt : (a : K) (capacity : ℕ) → 0 < capacity → hash a capacity < capacity

-- The difference of two `unsigned int` values, before it is read as an `int`.
unfoldable pub int_cmp : ℕ → ℕ → ℕ
int_cmp l r = (l + 2 ^ 32 - r) % 2 ^ 32

-- The steps of the integer hash on 32-bit words.
unfoldable pub int_mix : ℕ → ℕ
int_mix a =
    let a = bit_xor (bit_xor a 61) (a / 2 ^ 16) in
    let a = (a + a * 2 ^ 3) % 2 ^ 32 in
    let a = bit_xor a (a / 2 ^ 4) in let a = (a * 0x27d4eb2d) % 2 ^ 32 in bit_xor a (a / 2 ^ 15)

unfoldable pub int_hash_func : ℕ → ℕ → ℕ
unfolding int_mix
int_hash_func a capacity = int_mix a % capacity

-- `strncmp(l, r, strlen(l)) == 0`, on the bytes before the NUL: `l` is a prefix of `r`.
unfoldable pub str_cmp : List ℕ → List ℕ → Bool
str_cmp [] r = true
str_cmp (a ∷ l) [] = false
str_cmp (a ∷ l) (b ∷ r) = a == b && str_cmp l r

-- `h ^= x >> 24; h &= ~x`, where `x` holds the four high bits of `h`: a 32-bit `& ~x` takes them
-- off.
fold_high : ℕ → ℕ
fold_high h =
    let x = bit_and h 0xF0000000 in
    if x == 0 then h else bit_and (bit_xor h (x / 2 ^ 24)) (0xFFFFFFFF - x)

-- A `char` is signed: a byte from 128 on is added as its difference to 256.
char_value : ℕ → ℕ
char_value c = if ltb c 128 then c else 2 ^ 32 + c - 256

str_hash_loop : ℕ → List ℕ → ℕ
unfolding fold_high char_value
str_hash_loop h [] = h
str_hash_loop h (c ∷ s) = str_hash_loop (fold_high ((h * 2 ^ 4 + char_value c) % 2 ^ 32)) s

unfoldable pub str_hash_func : List ℕ → ℕ → ℕ
unfolding str_hash_loop
str_hash_func s capacity = bit_and (str_hash_loop 0 s) 0x7FFFFFFF % capacity

pub int_cmp_iff : (a b : ℕ) → a < 2 ^ 32 → b < 2 ^ 32 → ((int_cmp a b == 0) ≡ true) ↔ (a ≡ b)
unfolding int_cmp
int_cmp_iff a b p q = ground arith

mod-lt_capacity : (x n : ℕ) → 0 < n → x % n < n
mod-lt_capacity x n h = omega arith

pub int_hash_func-lt : (a n : ℕ) → 0 < n → int_hash_func a n < n
unfolding int_hash_func
int_hash_func-lt a n h = mod-lt_capacity (int_mix a) n h

instance abbrev pub int_key : HashKey ℕ
int_key = record {
  same = λ l r. int_cmp l r == 0;
  hash = int_hash_func;
  IsKey = λ a. a < 2 ^ 32;
  same_iff = int_cmp_iff;
  hash-lt = int_hash_func-lt;
}

-- The texts of one length, on which the prefix test is equality: device identifiers have 32
-- characters.
abbrev pub IsOid : List ℕ → Type 0
IsOid s = length s ≡ 32

str_cmp_iff : (a b : List ℕ) → length a ≡ length b → (str_cmp a b ≡ true) ↔ (a ≡ b)
unfolding str_cmp
str_cmp_iff [] [] e = (λ _. refl, λ _. refl)
str_cmp_iff [] (y ∷ b) e = absurd (omega arith)
str_cmp_iff (x ∷ a) [] e = absurd (omega arith)
str_cmp_iff (x ∷ a) (y ∷ b) e = ground (arith, str_cmp_iff a b (omega arith))

pub str_cmp_oid : (a b : List ℕ) → IsOid a → IsOid b → (str_cmp a b ≡ true) ↔ (a ≡ b)
str_cmp_oid a b p q = str_cmp_iff a b (omega arith)

pub str_hash_func-lt : (s : List ℕ) (n : ℕ) → 0 < n → str_hash_func s n < n
unfolding str_hash_func
str_hash_func-lt s n h = mod-lt_capacity (bit_and (str_hash_loop 0 s) 0x7FFFFFFF) n h

instance abbrev pub str_key : HashKey (List ℕ)
str_key = record {
  same = str_cmp;
  hash = str_hash_func;
  IsKey = IsOid;
  same_iff = str_cmp_oid;
  hash-lt = str_hash_func-lt;
}
