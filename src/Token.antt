-- ===== src/Token.antt =====
-- The tokens of a packet format, `add_g1_token_internal` and `del_g1_token_internal` of
-- src/g1_fmt.c, with the structures of inc/g1_fmt.h. The linked tokens are a list. The field
-- `token_num`, which is cleared and never read, is left out, and so is `pdt`: a format is stored in
-- the map of its own product.
pub mod Layout
use ece_lib.Base.{
  ℕ, ◌+◌, Bool, true, false, ◌&&◌, Option, none, some, List, [], ◌∷◌, ◌==◌, leb, if◌then◌else◌,
}
use ece_lib.Machine.{Memory, malloc, u64}

pub record G1Token : Type 0 where
  pub topic : ℕ
  pub offset : ℕ
  pub len : ℕ

-- `pkt` is the array of 128 bytes.
pub record G1Fmt : Type 0 where
  pub key : ℕ
  pub size : ℕ
  pub pkt : List ℕ
  pub pkt_len : ℕ
  pub offset : ℕ
  pub len : ℕ
  pub token : List G1Token

-- The walk over the tokens, with `end` for `offset1 + len1`, the end of the token before; what comes
-- back is the list with the token linked in, or `none` where the call returns `NULL`.
unfoldable pub insert_token :
    (size : ℕ) (t : G1Token) (end : ℕ) → List G1Token → Option (List G1Token)
insert_token size t end [] =
    if leb end t.offset && leb (u64 (t.offset + t.len)) size then some (t ∷ []) else none
insert_token size t end (cur ∷ rest) =
    if t.topic == cur.topic
    then none
    else if leb end t.offset && leb (u64 (t.offset + t.len)) cur.offset
    then some (t ∷ cur ∷ rest)
    else elim (insert_token size t (u64 (cur.offset + cur.len)) rest) [
      | none ↦ none
      | some rest' ↦ some (cur ∷ rest')
    ]

unfoldable pub add_g1_token_internal :
    G1Fmt → (token_topic offset len : ℕ) → Memory → Option (G1Token × G1Fmt) × Memory
unfolding insert_token
add_g1_token_internal fmt token_topic offset len mem =
    let (got, mem') = malloc mem in
    let token : G1Token = record { topic = token_topic; offset = offset; len = len } in
    if got
    then (
      elim (insert_token fmt.size token 0 fmt.token) [
        | none ↦ none
        | some tokens ↦ some (token, record fmt { token = tokens })
      ],
      mem',
    )
    else (none, mem')

-- The first token of the topic is unlinked.
unfoldable pub remove_token : ℕ → List G1Token → List G1Token
remove_token topic [] = []
remove_token topic (token ∷ rest) =
    if topic == token.topic then rest else token ∷ remove_token topic rest

unfoldable pub del_g1_token_internal : G1Fmt → ℕ → G1Fmt
unfolding remove_token
del_g1_token_internal fmt topic = record fmt { token = remove_token topic fmt.token }
