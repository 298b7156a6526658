-- ===== src/Misc/Digits.antt =====
-- What `ch_to_hex` of lib/misc.c reads, and where it writes.
use ece_lib.Base.{
  ℕ, zero, suc, ◌+◌, ◌*◌, ◌/◌, ◌%◌, ◌≤◌, ◌<◌, ◌≡◌, refl, sym, ◌∙◌, ap, true, false, some, List, [],
  ◌∷◌, ◌++◌, arith, ltb, lt→ltb, length, length-set, set, drop, All,
}
use ece_lib.Machine.{ok, fault, out_of_bounds}
use ece_lib.Md5.{hex_byte, hex_digit, hex_text}
use ece_lib.Misc.{digit_value, hex_loop, ch_to_hex}

digit_value-hex_digit : (n : ℕ) → n < 16 → digit_value (hex_digit n) ≡ some n
unfolding digit_value hex_digit
digit_value-hex_digit n h = ground arith

-- Writing the bytes to a buffer, from `n` on.
write_from : (bits : List ℕ) (n : ℕ) (bytes : List ℕ) → List ℕ
write_from bits n [] = bits
write_from bits n (b ∷ bytes) = write_from (set bits n b) (n + 1) bytes

set-set : (bits : List ℕ) (n u v : ℕ) → set (set bits n u) n v ≡ set bits n v
set-set [] n u v = refl
set-set (x ∷ bits) zero u v = refl
set-set (x ∷ bits) (suc n) u v = ap (λ r. x ∷ r) (set-set bits n u v)

-- Two digits and room for their byte: one round writes it.
pub hex_loop_round :
    (a b : ℕ) (s : List ℕ) (n high low : ℕ) (bits : List ℕ)
    → digit_value a ≡ some high
    → digit_value b ≡ some low
    → n < length bits
    → hex_loop (a ∷ b ∷ s) n bits ≡ hex_loop s (n + 1) (set bits n (high * 16 + low))
unfolding hex_loop
hex_loop_round a b s n high low bits p q fits =
    let room = lt→ltb n (length bits) fits in
    let room' : ltb n (length (set bits n high)) ≡ true = rw (length-set bits n high) room in
    rw (hex_loop, p, room, q, room', set-set bits n high (high * 16 + low)) refl

-- The printed bytes are read and written, and the loop goes on behind them.
hex_loop-hex_text :
    (bytes tail : List ℕ) (n : ℕ) (bits : List ℕ)
    → All (λ b. b < 256) bytes
    → n + length bytes ≤ length bits
    → hex_loop (hex_text bytes ++ tail) n bits
      ≡ hex_loop tail (n + length bytes) (write_from bits n bytes)
unfolding hex_text hex_byte write_from
hex_loop-hex_text [] tail n bits small fits =
    let end : n ≡ n + 0 = omega arith in ap (λ k. hex_loop tail k bits) end
hex_loop-hex_text (b ∷ bytes) tail n bits (byte, small) fits =
    let whole : b / 16 * 16 + b % 16 ≡ b = omega arith in
    let count : n + 1 + length bytes ≡ n + suc (length bytes) = omega arith in
    let rest =
      hex_loop-hex_text bytes tail (n + 1) (set bits n b) small
        (omega (arith, length-set bits n b)) in
    hex_loop_round (hex_digit (b / 16)) (hex_digit (b % 16)) (hex_text bytes ++ tail) n (b / 16)
      (b % 16) bits (digit_value-hex_digit (b / 16) (omega arith))
      (digit_value-hex_digit (b % 16) (omega arith)) (omega arith)
    ∙ ap (λ v. hex_loop (hex_text bytes ++ tail) (n + 1) (set bits n v)) whole
    ∙ rest
    ∙ ap (λ k. hex_loop tail k (write_from (set bits n b) (n + 1) bytes)) count

write_from-cons :
    (x : ℕ) (bits : List ℕ) (n : ℕ) (bytes : List ℕ)
    → write_from (x ∷ bits) (suc n) bytes ≡ x ∷ write_from bits n bytes
unfolding write_from
write_from-cons x bits n [] = refl
write_from-cons x bits n (b ∷ bytes) =
    let next : suc n + 1 ≡ suc (n + 1) = omega arith in
    ap (λ k. write_from (x ∷ set bits n b) k bytes) next
    ∙ write_from-cons x (set bits n b) (n + 1) bytes

-- What is written from the start of the buffer stands at its start.
write_from-start :
    (bytes bits : List ℕ)
    → length bytes ≤ length bits
    → write_from bits 0 bytes ≡ bytes ++ drop (length bytes) bits
unfolding write_from
write_from-start [] bits fits = refl
write_from-start (b ∷ bytes) [] fits = absurd (omega arith)
write_from-start (b ∷ bytes) (x ∷ bits) fits =
    write_from-cons b bits 0 bytes ∙ ap (λ r. b ∷ r) (write_from-start bytes bits (omega arith))

append-nil : (xs : List ℕ) → xs ++ [] ≡ xs
append-nil [] = refl
append-nil (x ∷ xs) = ap (λ r. x ∷ r) (append-nil xs)

-- The digits that print bytes are read back: where the buffer has room for the bytes, the count is
-- theirs, the buffer begins with them, and what stands behind them is as it was.
pub ch_to_hex-hex_text :
    (bytes bits : List ℕ)
    → All (λ b. b < 256) bytes
    → length bytes ≤ length bits
    → ch_to_hex (hex_text bytes) bits ≡ ok (length bytes, bytes ++ drop (length bytes) bits)
unfolding ch_to_hex hex_loop
ch_to_hex-hex_text bytes bits small fits =
    let count : 0 + length bytes ≡ length bytes = omega arith in
    ap (λ s. hex_loop s 0 bits) (sym (append-nil (hex_text bytes)))
    ∙ hex_loop-hex_text bytes [] 0 bits small (omega arith)
    ∙ λ i. ok (count i, write_from-start bytes bits fits i)

length-write_from :
    (bits : List ℕ) (n : ℕ) (bytes : List ℕ) → length (write_from bits n bytes) ≡ length bits
unfolding write_from
length-write_from bits n [] = refl
length-write_from bits n (b ∷ bytes) =
    length-write_from (set bits n b) (n + 1) bytes ∙ length-set bits n b

hex_loop_full :
    (a v : ℕ) (rest : List ℕ) (n : ℕ) (bits : List ℕ)
    → digit_value a ≡ some v
    → ltb n (length bits) ≡ false
    → hex_loop (a ∷ rest) n bits ≡ fault out_of_bounds
unfolding hex_loop
hex_loop_full a v [] n bits digit full = rw (hex_loop, digit, full) refl
hex_loop_full a v (b ∷ rest) n bits digit full = rw (hex_loop, digit, full) refl

-- A text with more digits than twice the buffer's size: where the digits of as many bytes as the
-- buffer has are followed by one digit more, the write of that one is out of the buffer's bounds.
pub ch_to_hex_beyond :
    (bytes : List ℕ) (digit v : ℕ) (rest bits : List ℕ)
    → All (λ b. b < 256) bytes
    → length bytes ≡ length bits
    → digit_value digit ≡ some v
    → ch_to_hex (hex_text bytes ++ (digit ∷ rest)) bits ≡ fault out_of_bounds
unfolding ch_to_hex
ch_to_hex_beyond bytes digit v rest bits small full is_digit =
    let size = length-write_from bits 0 bytes in
    hex_loop-hex_text bytes (digit ∷ rest) 0 bits small (omega arith)
    ∙ hex_loop_full digit v rest (0 + length bytes) (write_from bits 0 bytes) is_digit
        (ground (arith, size))
