-- ===== src/Md5.antt =====
-- lib/md5.c, on lists of bytes: the message is padded to chunks of 64 bytes, each chunk is mixed into
-- four 32-bit words, and the digest is printed in hexadecimal. A `size_t` is not wrapped: the
-- messages are texts of less than 256 bytes.
pub mod Padding
use ece_lib.Base.{
  ℕ, zero, suc, ◌+◌, ◌-◌, ◌*◌, ◌/◌, ◌%◌, ◌^◌, Bool, true, false, List, [], ◌∷◌, ◌++◌, ◌==◌, ltb,
  if◌then◌else◌, get_or, replicate, length, bit_and, bit_or, bit_xor, drop,
}
use ece_lib.Machine.{Run, ok, fault, null_pointer, ◌>>=◌, Memory, malloc, u32}
use ece_lib.Wire.{store32}

abbrev pub k : List ℕ
k =
    0xd76aa478 ∷ 0xe8c7b756 ∷ 0x242070db ∷ 0xc1bdceee ∷ 0xf57c0faf ∷ 0x4787c62a ∷ 0xa8304613
    ∷ 0xfd469501 ∷ 0x698098d8 ∷ 0x8b44f7af ∷ 0xffff5bb1 ∷ 0x895cd7be ∷ 0x6b901122 ∷ 0xfd987193
    ∷ 0xa679438e ∷ 0x49b40821 ∷ 0xf61e2562 ∷ 0xc040b340 ∷ 0x265e5a51 ∷ 0xe9b6c7aa ∷ 0xd62f105d
    ∷ 0x02441453 ∷ 0xd8a1e681 ∷ 0xe7d3fbc8 ∷ 0x21e1cde6 ∷ 0xc33707d6 ∷ 0xf4d50d87 ∷ 0x455a14ed
    ∷ 0xa9e3e905 ∷ 0xfcefa3f8 ∷ 0x676f02d9 ∷ 0x8d2a4c8a ∷ 0xfffa3942 ∷ 0x8771f681 ∷ 0x6d9d6122
    ∷ 0xfde5380c ∷ 0xa4beea44 ∷ 0x4bdecfa9 ∷ 0xf6bb4b60 ∷ 0xbebfbc70 ∷ 0x289b7ec6 ∷ 0xeaa127fa
    ∷ 0xd4ef3085 ∷ 0x04881d05 ∷ 0xd9d4d039 ∷ 0xe6db99e5 ∷ 0x1fa27cf8 ∷ 0xc4ac5665 ∷ 0xf4292244
    ∷ 0x432aff97 ∷ 0xab9423a7 ∷ 0xfc93a039 ∷ 0x655b59c3 ∷ 0x8f0ccc92 ∷ 0xffeff47d ∷ 0x85845dd1
    ∷ 0x6fa87e4f ∷ 0xfe2ce6e0 ∷ 0xa3014314 ∷ 0x4e0811a1 ∷ 0xf7537e82 ∷ 0xbd3af235 ∷ 0x2ad7d2bb
    ∷ 0xeb86d391 ∷ []

-- The four shift amounts of each group of sixteen rounds; the array repeats them four times.
abbrev pub r : ℕ → ℕ
r i =
    let shifts = 7 ∷ 12 ∷ 17 ∷ 22 ∷ 5 ∷ 9 ∷ 14 ∷ 20 ∷ 4 ∷ 11 ∷ 16 ∷ 23 ∷ 6 ∷ 10 ∷ 15 ∷ 21 ∷ [] in
    get_or shifts (4 * (i / 16) + i % 4) 0

unfoldable pub left_rotate : ℕ → ℕ → ℕ
left_rotate x c = bit_or (u32 (x * 2 ^ c)) (x / 2 ^ (32 - c))

abbrev pub complement : ℕ → ℕ
complement x = 0xFFFFFFFF - x

unfoldable pub to_bytes : ℕ → List ℕ
to_bytes val = store32 val

-- The word at an offset.
unfoldable pub to_int32 : List ℕ → ℕ → ℕ
to_int32 bytes i =
    bit_or
      (bit_or (bit_or (get_or bytes i 0) (get_or bytes (i + 1) 0 * 2 ^ 8))
        (get_or bytes (i + 2) 0 * 2 ^ 16))
      (get_or bytes (i + 3) 0 * 2 ^ 24)

-- The first loop: `new_len` is counted up to 56 modulo 64, on fuel.
unfoldable pub new_len_loop : ℕ → ℕ → ℕ
new_len_loop zero n = n
new_len_loop (suc fuel) n = let more = new_len_loop fuel (n + 1) in if n % 64 == 56 then n else more

-- 63 steps are enough: `Md5.Padding`.
unfoldable pub new_len : ℕ → ℕ
new_len initial_len = new_len_loop 63 (initial_len + 1)

-- The message with the bit 1, the bits 0 and its length in bits behind it.
unfoldable pub padded : List ℕ → List ℕ
padded msg =
    let n = length msg in
    msg
    ++ ((0x80 ∷ replicate (new_len n - (n + 1)) 0)
        ++ (to_bytes (u32 (n * 8)) ++ to_bytes (u32 (n / 2 ^ 29))))

-- The four words of the state.
pub record Words : Type 0 where
  pub a : ℕ
  pub b : ℕ
  pub c : ℕ
  pub d : ℕ

-- `f` of round `i`.
unfoldable pub round_f : ℕ → Words → ℕ
round_f i s =
    if ltb i 16
    then bit_or (bit_and s.b s.c) (bit_and (complement s.b) s.d)
    else if ltb i 32
    then bit_or (bit_and s.d s.b) (bit_and (complement s.d) s.c)
    else if ltb i 48
    then bit_xor (bit_xor s.b s.c) s.d
    else bit_xor s.c (bit_or s.b (complement s.d))

-- `g` of round `i`.
unfoldable pub round_g : ℕ → ℕ
round_g i =
    if ltb i 16
    then i
    else if ltb i 32
    then (5 * i + 1) % 16
    else if ltb i 48
    then (3 * i + 5) % 16
    else (7 * i) % 16

unfoldable pub round : (chunk : List ℕ) (i : ℕ) → Words → Words
unfolding round_f round_g left_rotate to_int32
round chunk i s =
    let w = to_int32 chunk (round_g i * 4) in
    record {
      a = s.d;
      b = u32 (s.b + left_rotate (u32 (s.a + round_f i s + get_or k i 0 + w)) (r i));
      c = s.b;
      d = s.c;
    }

-- The rounds from `i` on, `n` of them.
unfoldable pub rounds : (n i : ℕ) (chunk : List ℕ) → Words → Words
rounds zero i chunk s = s
rounds (suc n) i chunk s = rounds n (i + 1) chunk (round chunk i s)

-- One chunk, which starts at `msg`.
unfoldable pub mix_chunk : List ℕ → Words → Words
unfolding rounds round
mix_chunk msg h =
    let s = rounds 64 0 msg h in
    record { a = u32 (h.a + s.a); b = u32 (h.b + s.b); c = u32 (h.c + s.c); d = u32 (h.d + s.d) }

-- The loop over `n` chunks.
unfoldable pub chunk_loop : ℕ → List ℕ → Words → Words
chunk_loop zero msg h = h
chunk_loop (suc n) msg h = chunk_loop n (drop 64 msg) (mix_chunk msg h)

abbrev pub initial : Words
initial = record { a = 0x67452301; b = 0xefcdab89; c = 0x98badcfe; d = 0x10325476 }

-- What `md5` computes once it has memory. The offsets 0, 64, ... below `new_len` are
-- `(new_len + 63) / 64`.
unfoldable pub digest : List ℕ → List ℕ
unfolding chunk_loop mix_chunk padded new_len new_len_loop to_bytes
digest msg =
    let h = chunk_loop ((new_len (length msg) + 63) / 64) (padded msg) initial in
    to_bytes h.a ++ to_bytes h.b ++ to_bytes h.c ++ to_bytes h.d

-- The copy of the message is written through the result of `malloc`, which the source does not check.
unfoldable pub md5 : List ℕ → Memory → Run (List ℕ × Memory)
unfolding digest
md5 msg mem =
    let (got, mem') = malloc mem in if got then ok (digest msg, mem') else fault null_pointer

unfoldable pub hex_digit : ℕ → ℕ
hex_digit n = if ltb n 10 then 48 + n else 87 + n

-- "%2.2x" of a byte.
unfoldable pub hex_byte : ℕ → List ℕ
hex_byte n = hex_digit (n / 16) ∷ hex_digit (n % 16) ∷ []

-- The loop of `md5_string`, each round of which prints one byte more.
unfoldable pub hex_text : List ℕ → List ℕ
unfolding hex_byte hex_digit
hex_text [] = []
hex_text (n ∷ bytes) = hex_byte n ++ hex_text bytes

unfoldable pub md5_string : List ℕ → Memory → Run (List ℕ × Memory)
unfolding md5 hex_text
md5_string msg mem = do (bytes, mem') ← md5 msg mem; ok (hex_text bytes, mem')
