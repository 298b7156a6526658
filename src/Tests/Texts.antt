-- ===== src/Tests/Texts.antt =====
-- Texts that are read and printed.
use ece_lib.Base.{ℕ, ◌-◌, ◌^◌, ◌≡◌, refl, List, [], ◌∷◌, ◌++◌, some, arith, replicate}
use ece_lib.Machine.{Returns, ok, fault, out_of_bounds}
use ece_lib.Wire.{decimal, digit_loop}
use ece_lib.Md5.{hex_text, hex_byte, hex_digit}
use ece_lib.Misc.{
  Line, digit_value, ch_to_hex, payload_lines, print_payload, print_hex_ascii_line, hex_part,
  ascii_part, pad_decimal,
}
use ece_lib.Misc.Digits.{ch_to_hex-hex_text, ch_to_hex_beyond}
use ece_lib.Misc.Lines.{IsDump, payload_lines-IsDump}
use ece_lib.Cli.{sscanf_u, scan_lu, scan_sign, scan_unsigned, clamped, scan_digits}

abbrev pair : List ℕ
pair = 0xAB ∷ 5 ∷ []

ch_to_hex-hex_text_example : ch_to_hex (hex_text pair) (1 ∷ 2 ∷ 3 ∷ []) ≡ ok (2, 0xAB ∷ 5 ∷ 3 ∷ [])
ch_to_hex-hex_text_example =
    ch_to_hex-hex_text pair (1 ∷ 2 ∷ 3 ∷ []) (omega arith, (omega arith, tt)) (omega arith)

letter : digit_value 70 ≡ some 15
unfolding digit_value
letter = refl

-- The letter F behind the digits of two bytes, and a buffer of two.
ch_to_hex_beyond_example : ch_to_hex (hex_text pair ++ (70 ∷ [])) (1 ∷ 2 ∷ []) ≡ fault out_of_bounds
ch_to_hex_beyond_example =
    ch_to_hex_beyond pair 70 15 [] (1 ∷ 2 ∷ []) (omega arith, (omega arith, tt)) refl letter

-- A line of sixteen bytes and one of two.
abbrev payload : List ℕ
payload = replicate 18 65

payload_lines-IsDump_example :
    Returns
      (payload_lines payload 18)
      λ r. (lines : List Line) × (r ≡ some lines) × IsDump 0 payload lines
payload_lines-IsDump_example = payload_lines-IsDump payload (omega arith)

-- "00000   41 02 ", padding, and "A.".
dump_printed :
    print_payload (65 ∷ 2 ∷ []) 2
    ≡ ok (
        some (
          ((48 ∷ 48 ∷ 48 ∷ 48 ∷ 48 ∷ 32 ∷ 32 ∷ 32 ∷ [])
            ++ ((52 ∷ 49 ∷ 32 ∷ 48 ∷ 50 ∷ 32 ∷ []) ++ (replicate 46 32 ++ (65 ∷ 46 ∷ 10 ∷ []))))
          ∷ []))
unfolding print_payload payload_lines print_hex_ascii_line hex_part ascii_part pad_decimal decimal
    digit_loop hex_byte hex_digit
dump_printed = refl

-- " +12x", "-1" and "x".
read_plus : scan_lu (32 ∷ 43 ∷ 49 ∷ 50 ∷ 120 ∷ []) ≡ some 12
unfolding scan_lu scan_sign scan_unsigned clamped scan_digits
read_plus = refl

read_minus : sscanf_u 7 (45 ∷ 49 ∷ []) ≡ 2 ^ 32 - 1
unfolding sscanf_u scan_lu scan_sign scan_unsigned clamped scan_digits
read_minus = refl

read_nothing : sscanf_u 7 (120 ∷ []) ≡ 7
unfolding sscanf_u scan_lu scan_sign scan_unsigned clamped scan_digits
read_nothing = refl
