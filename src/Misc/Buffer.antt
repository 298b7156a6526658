-- ===== src/Misc/Buffer.antt =====
-- `ch_to_hex` of lib/misc.c stays in its buffer, where it ends normally.
use ece_lib.Base.{
  ℕ, ◌+◌, ◌*◌, ◌≤◌, ◌≡◌, refl, subst, sym, ◌∙◌, List, [], ◌∷◌, arith, length, length-set, ltb,
  ltb→lt, Bool-cases, Option-cases, inl, inr, set,
}
use ece_lib.Machine.{WhenOk, faults, returns}
use ece_lib.Misc.Digits.{hex_loop_round}
use ece_lib.Misc.{digit_value, hex_loop, ch_to_hex}

-- The count is at most the size of the buffer, which is as before.
abbrev pub InBuffer : ℕ → ℕ × List ℕ → Type 0
InBuffer size (n, bits) = (n ≤ size) × (length bits ≡ size)

hex_loop-InBuffer :
    (s : List ℕ) (n : ℕ) (bits : List ℕ) (size : ℕ)
    → length bits ≡ size
    → n ≤ size
    → WhenOk (InBuffer size) (hex_loop s n bits)
unfolding hex_loop
hex_loop-InBuffer [] n bits size whole fits = returns (fits, whole)
hex_loop-InBuffer (a ∷ []) n bits size whole fits = elim (Option-cases (digit_value a)) [
  | inl other ↦ rw (hex_loop, other) (returns (omega arith, whole))
  | inr (high, digit) ↦ elim (Bool-cases (ltb n (length bits))) [
    | inl room ↦ rw (hex_loop, digit, room) (returns (omega arith, length-set bits n high ∙ whole))
    | inr full ↦ rw (hex_loop, digit, full) faults
  ]
]
hex_loop-InBuffer (a ∷ b ∷ s) n bits size whole fits = elim (Option-cases (digit_value a)) [
  | inl other ↦ rw (hex_loop, other) (returns (omega arith, whole))
  | inr (high, digit) ↦ elim (Bool-cases (ltb n (length bits))) [
    | inr full ↦ rw (hex_loop, digit, full) faults
    | inl room ↦ elim (Option-cases (digit_value b)) [
      | inl other ↦
          rw (hex_loop, digit, room, other) (returns (omega arith, length-set bits n high ∙ whole))
      | inr (low, digit') ↦
          let below = ltb→lt n (length bits) room in
          subst (WhenOk (InBuffer size))
            (sym (hex_loop_round a b s n high low bits digit digit' below))
            (hex_loop-InBuffer s (n + 1) (set bits n (high * 16 + low)) size
              (length-set bits n (high * 16 + low) ∙ whole) (omega arith))
    ]
  ]
]

-- Where `ch_to_hex` ends normally, the bytes that it counts are in the buffer.
pub ch_to_hex-InBuffer : (s bits : List ℕ) → WhenOk (InBuffer (length bits)) (ch_to_hex s bits)
unfolding ch_to_hex
ch_to_hex-InBuffer s bits = hex_loop-InBuffer s 0 bits (length bits) refl (omega arith)
