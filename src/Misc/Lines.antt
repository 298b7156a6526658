-- ===== src/Misc/Lines.antt =====
-- What `print_payload` of lib/misc.c prints.
use ece_lib.Base.{
  ℕ, zero, suc, ◌+◌, ◌-◌, ◌%◌, ◌≤◌, ◌<◌, ◌≡◌, refl, ◌∙◌, ap, inl, inr, false, Option, some, List,
  [], ◌∷◌, ◌++◌, arith, ◌==◌, leb, le→leb, subst, length, length-take, length-drop, take, drop,
  Bool-cases, take-append-drop, take_all,
}
use native.Mathlib.Nat.{mod-eq_of_lt}
use ece_lib.Machine.{ok, Returns}
use ece_lib.Misc.{Line, line_at, line_loop, payload_lines}

-- The bytes from offset `at` on in lines of sixteen, the last of one to sixteen bytes.
pub data IsDump : (at : ℕ) (bytes : List ℕ) → List Line → Type 0 where
  dump_last :
      {at : ℕ} {bytes : List ℕ}
      → length bytes ≤ 16
      → 0 < length bytes
      → IsDump at bytes ((bytes, at) ∷ [])
  dump_line :
      {at : ℕ} {first rest : List ℕ} {lines : List Line}
      → length first ≡ 16
      → IsDump (at + 16) rest lines
      → IsDump at (first ++ rest) ((first, at) ∷ lines)

line_at-ok : (ch : List ℕ) (len at : ℕ) → len ≤ length ch → line_at ch len at ≡ ok (take len ch, at)
line_at-ok ch len at fits = rw (le→leb len (length ch) fits) refl

line_at-length : (ch : List ℕ) (len at : ℕ) → len ≡ length ch → line_at ch len at ≡ ok (ch, at)
line_at-length ch len at whole =
    ap (λ n. line_at ch n at) whole
    ∙ line_at-ok ch (length ch) at (omega arith)
    ∙ ap (λ bytes. ok (bytes, at)) (take_all ch)

full_line : (n : ℕ) → 16 < n → 16 % n ≡ 16
full_line n more = mod-eq_of_lt more

-- What the loop returns is a dump of the bytes.
abbrev DumpOf : (at : ℕ) (ch : List ℕ) → Option (List Line) → Type 0
DumpOf at ch r = (lines : List Line) × (r ≡ some lines) × IsDump at ch lines

dump_line_lem :
    (ch : List ℕ) (at : ℕ) (lines : List Line)
    → 16 ≤ length ch
    → IsDump (at + 16) (drop 16 ch) lines
    → IsDump at ch ((take 16 ch, at) ∷ lines)
dump_line_lem ch at lines more rest =
    subst (λ bytes. IsDump at bytes ((take 16 ch, at) ∷ lines)) (take-append-drop 16 ch)
      (dump_line (omega (arith, length-take 16 ch)) rest)

-- More than sixteen bytes, and as much fuel: the loop returns the lines.
line_loop-IsDump :
    (fuel : ℕ) (ch : List ℕ) (n at : ℕ)
    → n ≡ length ch
    → 16 < n
    → n ≤ fuel
    → Returns (line_loop fuel ch n at) (DumpOf at ch)
unfolding line_loop
line_loop-IsDump zero ch n at size more enough = absurd (omega arith)
line_loop-IsDump (suc fuel) ch n at size more enough =
    let full = full_line n more in
    let first = line_at-ok ch 16 at (omega arith) in
    let behind : n - 16 ≡ length (drop 16 ch) = omega (arith, length-drop 16 ch) in
    elim (Bool-cases (leb (n - 16) 16)) [
      | inl short ↦
          let last = line_at-length (drop 16 ch) (n - 16) (at + 16) behind in
          (
            some ((take 16 ch, at) ∷ (drop 16 ch, at + 16) ∷ []),
            rw (line_loop, full, first, short, full, last) refl,
            (
              (take 16 ch, at) ∷ (drop 16 ch, at + 16) ∷ [],
              refl,
              dump_line_lem ch at ((drop 16 ch, at + 16) ∷ []) (omega arith)
                  (dump_last (ground (arith, behind)) (omega arith)),
            ),
          )
      | inr long ↦
          let (r, run, (lines, is_some, dump)) =
            line_loop-IsDump fuel (drop 16 ch) (n - 16) (at + 16) behind (ground arith)
              (omega arith) in
          (
            some ((take 16 ch, at) ∷ lines),
            rw (line_loop, full, first, long, full, run, is_some) refl,
            ((take 16 ch, at) ∷ lines, refl, dump_line_lem ch at lines (omega arith) dump),
          )
    ]

-- The length that the caller gives is the payload's, and there is a byte at least: the lines printed are the
-- payload's bytes in their order, sixteen a line from its offset on and the rest, which is not empty, in
-- the last; the loop ends, and no byte beyond the payload is read.
pub payload_lines-IsDump :
    (payload : List ℕ)
    → 0 < length payload
    → Returns
        (payload_lines payload (length payload))
        λ r. (lines : List Line) × (r ≡ some lines) × IsDump 0 payload lines
unfolding payload_lines
payload_lines-IsDump payload some_byte =
    let not_none : (length payload == 0) ≡ false = ground arith in
    elim (Bool-cases (leb (length payload) 16)) [
      | inl short ↦
          let last = line_at-length payload (length payload) 0 refl in
          (
            some ((payload, 0) ∷ []),
            rw (payload_lines, not_none, short, last) refl,
            ((payload, 0) ∷ [], refl, dump_last (ground arith) some_byte),
          )
      | inr long ↦
          let (r, run, result) =
            line_loop-IsDump (length payload) payload (length payload) 0 refl (ground arith)
              (omega arith) in
          (r, rw (payload_lines, not_none, long) run, result)
    ]
