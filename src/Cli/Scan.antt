-- ===== src/Cli/Scan.antt =====
-- `sscanf` of the commands in app/cli_main.c, on the digits that "%lu" prints.
use ece_lib.Base.{
  ℕ, zero, suc, ◌+◌, ◌-◌, ◌*◌, ◌/◌, ◌%◌, ◌^◌, ◌<◌, ◌≤◌, ◌≡◌, refl, subst, true, false, some, [],
  ◌∷◌, foldl, arith, ltb, leb, Bool-cases, inl, inr, All, ◌==◌,
}
use ece_lib.Wire.{digit_loop, decimal, spelled, add_digit, decimal-spelled}
use ece_lib.Cli.{
  Text, is_digit, is_space, scan_digits, clamped, scan_unsigned, scan_sign, scan_lu, sscanf_u,
}

abbrev IsDigit : ℕ → Type 0
IsDigit c = (48 ≤ c) × (c < 58)

scan_digits-All : (acc : ℕ) (s : Text) → All IsDigit s → scan_digits acc s ≡ foldl add_digit acc s
unfolding scan_digits
scan_digits-All acc [] all = refl
scan_digits-All acc (c ∷ s) ((low, high), all) =
    let digit : is_digit c ≡ true = ground arith in
    rw digit (scan_digits-All (acc * 10 + (c - 48)) s all)

-- A digit is in front, and only digits follow.
abbrev IsNumber : Text → Type 0
IsNumber s = (c : ℕ) × (r : Text) × (s ≡ c ∷ r) × IsDigit c × All IsDigit r

digit_loop-IsNumber : (f n : ℕ) (acc : Text) → All IsDigit acc → IsNumber (digit_loop (suc f) n acc)
unfolding digit_loop
digit_loop-IsNumber zero n acc all = elim (Bool-cases (ltb n 10)) [
  | inl last ↦ (48 + n, acc, rw last refl, (omega arith, ground arith), all)
  | inr more ↦ (48 + n % 10, acc, rw more refl, (omega arith, omega arith), all)
]
digit_loop-IsNumber (suc k) n acc all = elim (Bool-cases (ltb n 10)) [
  | inl last ↦ (48 + n, acc, rw last refl, (omega arith, ground arith), all)
  | inr more ↦
      let (c, r, e, d, rest) =
        digit_loop-IsNumber k (n / 10) ((48 + n % 10) ∷ acc) ((omega arith, omega arith), all) in
      (c, r, rw more e, d, rest)
]

scan_lu-digits :
    (c : ℕ) (r : Text)
    → All IsDigit (c ∷ r)
    → spelled (c ∷ r) < 2 ^ 64
    → scan_lu (c ∷ r) ≡ some (spelled (c ∷ r))
unfolding spelled scan_lu scan_sign scan_unsigned clamped
scan_lu-digits c r ((low, high), all) small =
    let no_space : is_space c ≡ false = ground arith in
    let no_minus : (c == 45) ≡ false = ground arith in
    let no_plus : (c == 43) ≡ false = ground arith in
    let digit : is_digit c ≡ true = ground arith in
    let value : scan_digits (0 * 10 + (c - 48)) r ≡ spelled (c ∷ r) =
      scan_digits-All (0 * 10 + (c - 48)) r all in
    let below : leb (2 ^ 64) (spelled (c ∷ r)) ≡ false = ground arith in
    rw
      (scan_lu, no_space, scan_sign, no_minus, no_plus, scan_unsigned, digit, value, clamped, below)
      refl

-- A number of 64 bits is read.
scan_lu-IsNumber : (s : Text) → IsNumber s → spelled s < 2 ^ 64 → scan_lu s ≡ some (spelled s)
scan_lu-IsNumber s (c, r, e, digit, all) small =
    rw e (scan_lu-digits c r (digit, all) (subst (λ t. spelled t < 2 ^ 64) e small))

decimal-IsNumber : (n : ℕ) → IsNumber (decimal n)
unfolding decimal
decimal-IsNumber n = digit_loop-IsNumber 19 n [] tt

-- What "%lu" prints of a number of 32 bits is read as that number.
pub sscanf_u-decimal : (before n : ℕ) → n < 2 ^ 32 → sscanf_u before (decimal n) ≡ n
unfolding sscanf_u
sscanf_u-decimal before n small =
    let value = decimal-spelled n (omega arith) in
    let read = scan_lu-IsNumber (decimal n) (decimal-IsNumber n) (omega (arith, value)) in
    rw (sscanf_u, read, value) (omega arith)
