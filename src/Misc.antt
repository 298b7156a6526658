-- ===== src/Misc.antt =====
-- lib/misc.c: packets printed in hexadecimal and ASCII, and `ch_to_hex`, which reads hexadecimal
-- digits. A printed text is the list of its characters; a string has no NUL in it.
pub mod Lines
pub mod Digits
pub mod Buffer
use ece_lib.Base.{
  ℕ, zero, suc, ◌+◌, ◌-◌, ◌*◌, ◌%◌, ◌^◌, Bool, true, false, ◌&&◌, Option, none, some, List, [], ◌∷◌,
  ◌++◌, ◌==◌, ltb, leb, if◌then◌else◌, length, take, drop, set, replicate, map, bit_or,
}
use ece_lib.Machine.{Run, ok, fault, out_of_bounds, ◌>>=◌}
use ece_lib.Wire.{decimal}
use ece_lib.Md5.{hex_byte, hex_digit}

-- "%05d" of an offset.
unfoldable pub pad_decimal : ℕ → List ℕ
pad_decimal n = replicate (5 - length (decimal n)) 48 ++ decimal n

-- The first loop, from byte `i` on: "%02x ", and one space more behind the eighth.
unfoldable pub hex_part : (i : ℕ) (bytes : List ℕ) → List ℕ
hex_part i [] = []
hex_part i (b ∷ bytes) =
    hex_byte b ++ (32 ∷ ((if i == 7 then 32 ∷ [] else []) ++ hex_part (i + 1) bytes))

-- `isprint` in the C locale.
abbrev pub is_print : ℕ → Bool
is_print c = leb 32 c && ltb c 127

unfoldable pub ascii_part : List ℕ → List ℕ
ascii_part [] = []
ascii_part (b ∷ bytes) = (if is_print b then b else 46) ∷ ascii_part bytes

-- The line of `len` bytes, which are `bytes`.
unfoldable pub print_hex_ascii_line : (bytes : List ℕ) (offset : ℕ) → List ℕ
unfolding hex_part ascii_part pad_decimal
print_hex_ascii_line bytes offset =
    let len = length bytes in
    pad_decimal offset
    ++ ((32 ∷ 32 ∷ 32 ∷ [])
        ++ (hex_part 0 bytes
            ++ ((if ltb len 8 then 32 ∷ [] else [])
                ++ (replicate (3 * (16 - len)) 32
                    ++ ((32 ∷ 32 ∷ 32 ∷ []) ++ (ascii_part bytes ++ (10 ∷ [])))))))

-- A line to print: its bytes and its offset.
abbrev pub Line : Type 0
Line = List ℕ × ℕ

-- The bytes of one call of `print_hex_ascii_line`, which reads `len` of them.
abbrev pub line_at : (ch : List ℕ) (len offset : ℕ) → Run Line
line_at ch len offset =
    if leb len (length ch) then ok (take len ch, offset) else fault out_of_bounds

-- The loop of `print_payload`, on fuel; `none` where the fuel runs out.
unfoldable pub line_loop : (fuel : ℕ) (ch : List ℕ) (len_rem offset : ℕ) → Run (Option (List Line))
line_loop zero ch len_rem offset = ok none
line_loop (suc fuel) ch len_rem offset =
    let line_len = 16 % len_rem in
    do
      first ← line_at ch line_len offset
      let ch' = drop line_len ch
      let rem = len_rem - line_len
      elim (leb rem 16) [
        | true ↦ do last ← line_at ch' rem (offset + 16); ok (some (first ∷ last ∷ []))
        | false ↦ do
          rest ← line_loop fuel ch' rem (offset + 16)
          ok (elim rest [ none ↦ none | some lines ↦ some (first ∷ lines) ])
      ]

-- The lines of `print_payload`; the fuel is the length.
unfoldable pub payload_lines : (payload : List ℕ) (len : ℕ) → Run (Option (List Line))
unfolding line_loop
payload_lines payload len =
    if len == 0
    then ok (some [])
    else if leb len 16
    then (do line ← line_at payload len 0; ok (some (line ∷ [])))
    else line_loop len payload len 0

-- `len` is turned into an `int`, and a negative one prints nothing.
unfoldable pub print_payload : (payload : List ℕ) (len : ℕ) → Run (Option (List (List ℕ)))
unfolding payload_lines print_hex_ascii_line
print_payload payload len =
    let n = len % 2 ^ 32 in
    if leb (2 ^ 31) n then ok (some []) else do
      lines ← payload_lines payload n
      ok (elim lines [
        | none ↦ none
        | some ls ↦ some (map (λ (bytes, offset). print_hex_ascii_line bytes offset) ls)
      ])

-- The value of a hexadecimal digit of either case, after `toupper` and `isxdigit`.
unfoldable pub digit_value : ℕ → Option ℕ
digit_value ch =
    if leb 48 ch && leb ch 57
    then some (ch - 48)
    else if leb 65 ch && leb ch 70
    then some (ch - 55)
    else if leb 97 ch && leb ch 102
    then some (ch - 87)
    else none

-- `bits[n] = v`
abbrev pub store_at : (bits : List ℕ) (n v : ℕ) → Run (List ℕ)
store_at bits n v = if ltb n (length bits) then ok (set bits n v) else fault out_of_bounds

-- The loop of `ch_to_hex`: the count that is returned, and the buffer. The second digit of a byte is
-- looked for also where the string ends behind the first.
unfoldable pub hex_loop : (s : List ℕ) (n : ℕ) (bits : List ℕ) → Run (ℕ × List ℕ)
unfolding digit_value
hex_loop [] n bits = ok (n, bits)
hex_loop (a ∷ []) n bits = elim (digit_value a) [
  | none ↦ ok (0, bits)
  | some high ↦ do bits' ← store_at bits n high; ok (0, bits')
]
hex_loop (a ∷ b ∷ s) n bits = elim (digit_value a) [
  | none ↦ ok (0, bits)
  | some high ↦ do
    bits' ← store_at bits n high
    elim (digit_value b) [
      | none ↦ ok (0, bits')
      | some low ↦ do bits'' ← store_at bits' n (high * 16 + low); hex_loop s (n + 1) bits''
    ]
]

unfoldable pub ch_to_hex : (s : List ℕ) (bits : List ℕ) → Run (ℕ × List ℕ)
unfolding hex_loop
ch_to_hex s bits = hex_loop s 0 bits
