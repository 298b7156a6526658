-- ===== src/Cli/Session.antt =====
-- The functions of app/cli_main.c that `cli_main` does not register: the commands of libcli's own
-- example, the two checks of a password, and the regular callback.
use ece_lib.Base.{
  ℕ, ◌+◌, ◌≡◌, refl, ap₂, ◌↔◌, Bool, true, false, not, ◌||◌, List, [], ◌∷◌, ◌&&◌, codes, ◌==◌,
  ==_iff, ltb, leb, if◌then◌else◌, length, map, arith, Bool-cases, inl, inr,
}
use ece_lib.Machine.{u32}
use ece_lib.Cli.{Text, arg, asks_help, same_text, sscanf_u}
use ece_lib.Cli.Console.{Mode, mode_config, mode_int}

-- `cli->timeout_tm`, the mode of libcli, `regular_count` and `debug_regular`.
pub record Session : Type 0 where
  pub mode : Mode
  pub tv_sec : ℕ
  pub tv_usec : ℕ
  pub regular_count : ℕ
  pub debug_regular : Bool

-- The pointers to the arguments are never `NULL`, so the third test is never true.
unfoldable pub cmd_set : List Text → Session → Session
cmd_set argv s =
    if ltb (length argv) 2 || asks_help (arg argv 0)
    then s
    else if asks_help (arg argv 1)
    then s
    else if same_text (arg argv 0) (codes "regular_interval")
    then (let sec = sscanf_u 0 (arg argv 1) in
        if ltb sec 1 then s else record s { tv_sec = sec; tv_usec = 0 })
    else s

-- `tolower` in the C locale.
abbrev pub lower : ℕ → ℕ
lower c = if leb 65 c && leb c 90 then c + 32 else c

-- `strcasecmp` of two strings is 0.
unfoldable pub same_letters : Text → Text → Bool
same_letters s t = same_text (map lower s) (map lower t)

unfoldable pub cmd_config_int : List Text → Session → Session
unfolding same_letters
cmd_config_int argv s =
    if ltb (length argv) 1
    then s
    else if asks_help (arg argv 0)
    then s
    else if same_letters (arg argv 0) (codes "test0/0")
    then record s { mode = mode_int }
    else s

unfoldable pub cmd_config_int_exit : Session → Session
cmd_config_int_exit s = record s { mode = mode_config }

unfoldable pub cmd_debug_regular : Session → Session
cmd_debug_regular s = record s { debug_regular = not s.debug_regular }

unfoldable pub regular_callback : Session → Session
regular_callback s = record s { regular_count = u32 (s.regular_count + 1) }

-- `CLI_OK` is true.
unfoldable pub check_auth : (username password : Text) → Bool
unfolding same_letters
check_auth username password =
    if not (same_letters username (codes "fred"))
    then false
    else if not (same_letters password (codes "nerk"))
    then false
    else true

unfoldable pub check_enable : (password : Text) → Bool
unfolding same_letters
check_enable password = same_letters password (codes "topsecret")

same_text-equal : (s t : Text) → same_text s t ≡ true → s ≡ t
unfolding same_text
same_text-equal [] [] h = refl
same_text-equal [] (d ∷ t) h = absurd (ground (arith, h))
same_text-equal (c ∷ s) [] h = absurd (ground (arith, h))
same_text-equal (c ∷ s) (d ∷ t) h = elim (Bool-cases (c == d)) [
  | inl here ↦ ap₂ (λ x r. x ∷ r) ((==_iff c d).0 here) (same_text-equal s t (rw here at h))
  | inr differ ↦ absurd (ground (arith, rw differ at h))
]

-- A name and a password are accepted exactly if they are those that the source names, in letters of
-- either case.
check_auth-accepts :
    (username password : Text)
    → (check_auth username password ≡ true)
      ↔ ((map lower username ≡ codes "fred") × (map lower password ≡ codes "nerk"))
unfolding check_auth same_letters same_text
check_auth-accepts username password = (there, λ (p, q). rw (p, q) refl)
  where
    there :
        check_auth username password ≡ true
        → (map lower username ≡ codes "fred") × (map lower password ≡ codes "nerk")
    there h = elim (Bool-cases (same_letters username (codes "fred"))) [
      | inr wrong ↦ absurd (ground (arith, rw (check_auth, wrong) at h))
      | inl right ↦ elim (Bool-cases (same_letters password (codes "nerk"))) [
        | inr wrong' ↦ absurd (ground (arith, rw (check_auth, right, wrong') at h))
        | inl right' ↦ (
          same_text-equal (map lower username) (codes "fred") right,
          same_text-equal (map lower password) (codes "nerk") right',
        )
      ]
    ]
