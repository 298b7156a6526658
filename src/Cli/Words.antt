-- ===== src/Cli/Words.antt =====
-- The hexadecimal arguments of the commands in app/cli_main.c.
use ece_lib.Base.{ℕ, suc, ◌^◌, ◌<◌, ◌≡◌, refl, false, some, List, [], ◌∷◌, arith, length, All, drop}
use ece_lib.Machine.{ok}
use ece_lib.Wire.{htonl, ntohl-htonl}
use ece_lib.Md5.{hex_text, hex_byte}
use ece_lib.Misc.Digits.{ch_to_hex-hex_text}
use ece_lib.Cli.{Text, same_text, word_arg, asks_help, wants_usage}

-- The eight digits of a number.
abbrev pub typed_word : ℕ → Text
typed_word n = hex_text (htonl n)

htonl-bytes : (n : ℕ) → All (λ b. b < 256) (htonl n)
unfolding htonl
htonl-bytes n = (omega arith, (omega arith, (omega arith, (omega arith, tt))))

-- An argument of eight digits is read as the number that they print, whatever the variable held.
pub word_arg-typed_word :
    (n : ℕ) (word : List ℕ)
    → n < 2 ^ 32
    → length word ≡ 4
    → word_arg (typed_word n) word ≡ ok (some n)
unfolding word_arg htonl
word_arg-typed_word n word small four =
    let read = ch_to_hex-hex_text (htonl n) word (htonl-bytes n) (omega arith) in
    rw (word_arg, read, ntohl-htonl n (drop 4 word) small) refl

-- The digits of bytes are not "?".
pub hex_text-no_help : (bytes : List ℕ) → asks_help (hex_text bytes) ≡ false
unfolding same_text hex_text hex_byte
hex_text-no_help [] = refl
hex_text-no_help (b ∷ bytes) = ground arith

-- The right number of arguments, the first not "?": the command goes on.
pub no_usage :
    (n : ℕ) (first : Text) (argv : List Text)
    → suc (length argv) ≡ n
    → asks_help first ≡ false
    → wants_usage n (first ∷ argv) ≡ false
unfolding wants_usage
no_usage n first argv count no_help = ground (arith, no_help)
