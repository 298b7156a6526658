-- ===== src/Wire.antt =====
-- Bytes of the network and of x86 memory: `htonl`, `ntohl`, `ntohs` and plain loads and stores of
-- an `unsigned int`, and the decimal digits of `sprintf("%lu")`.
use ece_lib.Base.{
  ℕ, zero, suc, ◌+◌, ◌-◌, ◌*◌, ◌/◌, ◌%◌, ◌^◌, ◌<◌, ◌≡◌, List, [], ◌∷◌, ◌++◌, arith, foldl,
  if◌then◌else◌, ltb, Bool-cases, inl, inr, drop, ◌∙◌, ap,
}
use native.Mathlib.Nat.{pow-suc}
use ece_lib.Machine.{Run, ok, fault, out_of_bounds, ◌>>=◌}

-- The next `n` bytes as a number, most significant first; `acc` holds what has been read.
unfoldable pub read_be : ℕ → ℕ → List ℕ → Run ℕ
read_be zero acc bytes = ok acc
read_be (suc n) acc [] = fault out_of_bounds
read_be (suc n) acc (b ∷ bytes) = read_be n (acc * 256 + b) bytes

-- `ntohl` of the `unsigned int` at a byte offset.
unfoldable pub ntohl_at : ℕ → List ℕ → Run ℕ
unfolding read_be
ntohl_at i bytes = read_be 4 0 (drop i bytes)

-- `htonl`, as the four bytes in memory.
unfoldable pub htonl : ℕ → List ℕ
htonl v = v / 2 ^ 24 % 256 ∷ v / 2 ^ 16 % 256 ∷ v / 2 ^ 8 % 256 ∷ v % 256 ∷ []

-- An `unsigned int` in host order, least significant byte first.
unfoldable pub store32 : ℕ → List ℕ
store32 v = v % 256 ∷ v / 2 ^ 8 % 256 ∷ v / 2 ^ 16 % 256 ∷ v / 2 ^ 24 % 256 ∷ []

-- The next `n` bytes as a number, least significant first.
unfoldable pub read_le : ℕ → List ℕ → Run ℕ
read_le zero bytes = ok 0
read_le (suc n) [] = fault out_of_bounds
read_le (suc n) (b ∷ bytes) = do high ← read_le n bytes; ok (b + 256 * high)

-- The plain load of an `unsigned int` at a byte offset.
unfoldable pub load32_at : ℕ → List ℕ → Run ℕ
unfolding read_le
load32_at i bytes = read_le 4 (drop i bytes)

-- Reading back what `htonl` and a plain store have written, whatever follows.
pub ntohl-htonl : (v : ℕ) (rest : List ℕ) → v < 2 ^ 32 → ntohl_at 0 (htonl v ++ rest) ≡ ok v
unfolding ntohl_at htonl
ntohl-htonl v rest h = ap ok (omega arith)

pub load32-store32 : (v : ℕ) (rest : List ℕ) → v < 2 ^ 32 → load32_at 0 (store32 v ++ rest) ≡ ok v
unfolding load32_at store32
load32-store32 v rest h = ap ok (omega arith)

-- The decimal digits in front of `acc`; twenty rounds serve every `unsigned long`.
unfoldable pub digit_loop : ℕ → ℕ → List ℕ → List ℕ
digit_loop zero n acc = acc
digit_loop (suc f) n acc =
    let more = digit_loop f (n / 10) ((48 + n % 10) ∷ acc) in
    if ltb n 10 then (48 + n) ∷ acc else more

unfoldable pub decimal : ℕ → List ℕ
unfolding digit_loop
decimal n = digit_loop 20 n []

-- The number that a string of digits spells.
unfoldable pub spelled : List ℕ → ℕ
spelled s = foldl (λ n c. n * 10 + (c - 48)) 0 s

abbrev pub add_digit : ℕ → ℕ → ℕ
add_digit n c = n * 10 + (c - 48)

digit_loop-spelled :
    (f n : ℕ) (acc : List ℕ) → n < 10 ^ f → spelled (digit_loop f n acc) ≡ foldl add_digit n acc
unfolding spelled digit_loop
digit_loop-spelled zero n acc h = ap (λ k. foldl add_digit k acc) (omega arith)
digit_loop-spelled (suc f) n acc h = elim (Bool-cases (ltb n 10)) [
  | inl last ↦ rw last (ap (λ k. foldl add_digit k acc) (omega arith))
  | inr more ↦
      let less : n / 10 < 10 ^ f = omega (arith, pow-suc 10 f) in
      rw more (
        digit_loop-spelled f (n / 10) ((48 + n % 10) ∷ acc) less
        ∙ ap (λ k. foldl add_digit k acc) (omega arith))
]

-- The digits that are printed for a number of 64 bits spell it.
pub decimal-spelled : (n : ℕ) → n < 2 ^ 64 → spelled (decimal n) ≡ n
unfolding decimal
decimal-spelled n h = digit_loop-spelled 20 n [] (omega arith)
