-- ===== src/Cli.antt =====
-- The command line in app/cli_main.c: how a command reads its arguments, and the commands of the
-- server, each as the call of srv/srv_main.c that it ends in.
--
-- An argument is the list of its characters; libcli splits a line into `argv`, as long as `argc`. What
-- is printed is not modelled, and each command returns `CLI_OK`. What the local variables hold that a
-- command does not initialise is the parameter `stack`.
pub mod Scan
pub mod Edge
pub mod Packets
pub mod Words
pub mod Entries
pub mod Console
pub mod Session
use ece_lib.Base.{
  ℕ, zero, suc, ◌+◌, ◌-◌, ◌*◌, ◌%◌, ◌^◌, Bool, true, false, not, ◌&&◌, ◌||◌, Option, none, some,
  List, [], ◌∷◌, ◌==◌, ltb, leb, if◌then◌else◌, length, get_or, replicate,
}
use ece_lib.Machine.{Run, ok, ◌>>=◌, Memory, u32}
use ece_lib.Wire.{ntohl_at}
use ece_lib.Misc.{ch_to_hex}
use ece_lib.Srv.{
  Sent, srv_add_pdt, srv_del_pdt, srv_add_dev, srv_del_dev, srv_del_g1_fmt, srv_add_g1_token,
  srv_del_g1_token,
}

abbrev pub Text : Type 0
Text = List ℕ

-- `strcmp` of two strings is 0.
unfoldable pub same_text : Text → Text → Bool
same_text [] [] = true
same_text [] (d ∷ t) = false
same_text (c ∷ s) [] = false
same_text (c ∷ s) (d ∷ t) = let rest = same_text s t in if c == d then rest else false

-- The argument is "?".
abbrev pub asks_help : Text → Bool
asks_help s = same_text s (63 ∷ [])

abbrev pub arg : List Text → ℕ → Text
arg argv i = get_or argv i []

-- The first test of a command of the server that takes `n` arguments.
unfoldable pub wants_usage : (n : ℕ) (argv : List Text) → Bool
unfolding same_text
wants_usage n argv = (leb 1 (length argv) && asks_help (arg argv 0)) || not (length argv == n)

-- White space of the C locale.
abbrev pub is_space : ℕ → Bool
is_space c = c == 32 || (leb 9 c && leb c 13)

abbrev pub is_digit : ℕ → Bool
is_digit c = leb 48 c && leb c 57

-- The number that the digits in front spell, behind those that spell `acc`.
unfoldable pub scan_digits : (acc : ℕ) → Text → ℕ
scan_digits acc [] = acc
scan_digits acc (c ∷ s) =
    let more = scan_digits (acc * 10 + (c - 48)) s in if is_digit c then more else acc

-- What `strtoul` makes of a number with or without a minus sign: a number beyond 64 bits becomes the
-- greatest one, and a minus counts down from zero in 64 bits.
unfoldable pub clamped : (minus : Bool) (n : ℕ) → ℕ
clamped minus n = if leb (2 ^ 64) n then 2 ^ 64 - 1 else if minus then (2 ^ 64 - n) % 2 ^ 64 else n

-- The number behind the sign; `none` where there is no digit.
unfoldable pub scan_unsigned : (minus : Bool) → Text → Option ℕ
unfolding scan_digits clamped
scan_unsigned minus [] = none
scan_unsigned minus (c ∷ s) =
    let n = scan_digits 0 (c ∷ s) in if is_digit c then some (clamped minus n) else none

unfoldable pub scan_sign : Text → Option ℕ
unfolding scan_unsigned
scan_sign [] = none
scan_sign (c ∷ s) =
    if c == 45
    then scan_unsigned true s
    else if c == 43
    then scan_unsigned false s
    else scan_unsigned false (c ∷ s)

-- `sscanf` of "%lu": the number that is stored, if one is.
unfoldable pub scan_lu : Text → Option ℕ
unfolding scan_sign
scan_lu [] = none
scan_lu (c ∷ s) = let rest = scan_lu s in if is_space c then rest else scan_sign (c ∷ s)

-- The variable behind `sscanf(text, "%u", &var)`, which held `before`.
unfoldable pub sscanf_u : (before : ℕ) (text : Text) → ℕ
unfolding scan_lu
sscanf_u before text = elim (scan_lu text) [ none ↦ before | some n ↦ u32 n ]

-- What is left on the stack: the bytes of `topic`, those of `addr`, and two numbers.
pub record Stack : Type 0 where
  pub word : List ℕ
  pub addr : List ℕ
  pub num : ℕ
  pub num' : ℕ

-- `topic` and `key` of the commands that clear them.
abbrev pub clear_word : List ℕ
clear_word = replicate 4 0

-- An `unsigned int` of eight digits: `ch_to_hex` into the variable, whose bytes are `word`, and `ntohl`;
-- `none` where the count is not 4.
unfoldable pub word_arg : (text : Text) (word : List ℕ) → Run (Option ℕ)
word_arg text word = do
  (len, bytes) ← ch_to_hex text word
  if len == 4 then (do v ← ntohl_at 0 bytes; ok (some v)) else ok none

-- The rest of a command behind such an argument; without the number it ends, and nothing is sent.
abbrev pub with_word : (text : Text) (word : List ℕ) → Memory → (ℕ → Run Sent) → Run Sent
with_word text word mem rest = do
  number ← word_arg text word
  elim number [ none ↦ ok (none, mem) | some n ↦ rest n ]

unfoldable pub cmd_server_add_pdt : Stack → List Text → Memory → Run Sent
cmd_server_add_pdt stack argv mem =
    if wants_usage 2 argv
    then ok (none, mem)
    else with_word (arg argv 0) stack.word mem λ topic.
      let num = sscanf_u 0 (arg argv 1) in
      if ltb 2 num || num == 0 then ok (none, mem) else ok (srv_add_pdt topic num mem)

unfoldable pub cmd_server_del_pdt : Stack → List Text → Memory → Run Sent
cmd_server_del_pdt stack argv mem =
    if wants_usage 1 argv
    then ok (none, mem)
    else with_word (arg argv 0) stack.word mem λ topic. ok (srv_del_pdt topic mem)

unfoldable pub cmd_server_add_dev : Stack → List Text → Memory → Run Sent
cmd_server_add_dev stack argv mem =
    if wants_usage 4 argv
    then ok (none, mem)
    else with_word (arg argv 1) stack.word mem λ topic. do
      (len, addr) ← ch_to_hex (arg argv 0) (replicate 64 0)
      let link_type = sscanf_u stack.num (arg argv 2)
      let port = sscanf_u stack.num' (arg argv 3)
      srv_add_dev addr len topic link_type port mem

unfoldable pub cmd_server_del_dev : Stack → List Text → Memory → Run Sent
cmd_server_del_dev stack argv mem = if wants_usage 2 argv then ok (none, mem) else do
  (len, addr) ← ch_to_hex (arg argv 0) stack.addr
  srv_del_dev addr len (sscanf_u stack.num (arg argv 1)) mem

-- The call of `srv_add_g1_fmt` is commented out: the arguments are read, and nothing is sent.
unfoldable pub cmd_server_add_g1_fmt : List Text → Memory → Run Sent
cmd_server_add_g1_fmt argv mem =
    if wants_usage 2 argv
    then ok (none, mem)
    else with_word (arg argv 0) clear_word mem
        λ topic. with_word (arg argv 1) clear_word mem λ key. ok (none, mem)

unfoldable pub cmd_server_del_g1_fmt : List Text → Memory → Run Sent
cmd_server_del_g1_fmt argv mem =
    if wants_usage 2 argv
    then ok (none, mem)
    else with_word (arg argv 0) clear_word mem
        λ topic. with_word (arg argv 1) clear_word mem λ key. ok (srv_del_g1_fmt topic key mem)

unfoldable pub cmd_server_add_g1_token : List Text → Memory → Run Sent
cmd_server_add_g1_token argv mem =
    if wants_usage 6 argv
    then ok (none, mem)
    else with_word (arg argv 0) clear_word mem λ topic. with_word (arg argv 1) clear_word mem λ key.
      with_word (arg argv 2) clear_word mem λ token_topic.
        let type = sscanf_u 0 (arg argv 3) in
        let offset = sscanf_u 0 (arg argv 4) in
        let tlen = sscanf_u 0 (arg argv 5) in
        if tlen == 0
        then ok (none, mem)
        else ok (srv_add_g1_token topic key token_topic type offset tlen mem)

unfoldable pub cmd_server_del_g1_token : List Text → Memory → Run Sent
cmd_server_del_g1_token argv mem =
    if wants_usage 3 argv
    then ok (none, mem)
    else with_word (arg argv 0) clear_word mem λ topic. with_word (arg argv 1) clear_word mem λ key.
      with_word (arg argv 2) clear_word mem
        λ token_topic. ok (srv_del_g1_token topic key token_topic mem)

-- The commands of the mode `MODE_CONFIG_SERVER` that call the server.
pub data ServerCommand : Type 0 where
  product_add product_delete device_add device_delete format_add format_delete token_add
        token_delete :
      ServerCommand

unfoldable pub run_server : ServerCommand → Stack → List Text → Memory → Run Sent
unfolding cmd_server_add_pdt cmd_server_del_pdt cmd_server_add_dev cmd_server_del_dev
    cmd_server_add_g1_fmt cmd_server_del_g1_fmt cmd_server_add_g1_token cmd_server_del_g1_token
run_server product_add stack argv mem = cmd_server_add_pdt stack argv mem
run_server product_delete stack argv mem = cmd_server_del_pdt stack argv mem
run_server device_add stack argv mem = cmd_server_add_dev stack argv mem
run_server device_delete stack argv mem = cmd_server_del_dev stack argv mem
run_server format_add stack argv mem = cmd_server_add_g1_fmt argv mem
run_server format_delete stack argv mem = cmd_server_del_g1_fmt argv mem
run_server token_add stack argv mem = cmd_server_add_g1_token argv mem
run_server token_delete stack argv mem = cmd_server_del_g1_token argv mem
