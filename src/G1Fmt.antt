-- ===== src/G1Fmt.antt =====
-- The packet formats of src/g1_fmt.c, and `del_pdt` of src/pdt.c.
pub mod Invariant
pub mod AddToken
pub mod DelToken
pub mod Formats
pub mod DelFormat
pub mod DelProduct
pub mod Start
use ece_lib.Base.{
  ℕ, ◌+◌, ◌-◌, Bool, true, false, ◌||◌, Option, none, some, List, [], ◌∷◌, ◌==◌, if◌then◌else◌,
  replicate,
}
use ece_lib.Machine.{Run, ok, fault, ◌>>=◌, Memory, malloc, memcpy}
use ece_lib.HashMap.Keys.{int_key}
use ece_lib.HashMap.{HashMap, hash_map_get, hash_map_put, hash_map_remove, hash_map_work}
use ece_lib.Attr.{EdgeAttr, Attrs, removed}
use ece_lib.Token.{G1Token, G1Fmt, add_g1_token_internal, del_g1_token_internal}
use ece_lib.Pdt.{Pdt, Catalog, get_pdt, add_pdt_attr, del_pdt_attr}

-- The write through `fmt->token` and the other pointers into a product.
abbrev pub store_fmt : Pdt → G1Fmt → Pdt
store_fmt p fmt = record p { fmt_map = hash_map_put p.fmt_map fmt.key fmt }

abbrev pub store_pdt : Catalog → Pdt → Attrs → Memory → Catalog
store_pdt c p attrs mem = record c {
  attrs = attrs;
  pdts = hash_map_put c.pdts p.topic p;
  mem = mem;
}

-- The format with its product.
unfoldable pub get_g1_fmt : (topic key : ℕ) → Catalog → Option (Pdt × G1Fmt)
unfolding get_pdt
get_g1_fmt topic key c = elim (get_pdt topic c) [
  | none ↦ none
  | some p ↦ elim (hash_map_get p.fmt_map key) [ none ↦ none | some fmt ↦ some (p, fmt) ]
]

-- The format after the call of `add_pdt_attr`: without the token again, where that returned `NULL`.
abbrev pub kept_fmt : Option EdgeAttr → G1Fmt → ℕ → G1Fmt
kept_fmt none fmt token_topic = del_g1_token_internal fmt token_topic
kept_fmt (some _) fmt token_topic = fmt

-- Where the attribute cannot be added the token is taken out and freed again; the pointer to it is
-- returned all the same.
unfoldable pub link_token :
    Catalog → Pdt → G1Fmt → G1Token → (type : ℕ) → Memory → Run (Option G1Token × Catalog)
link_token c p fmt token type mem = do
  (attr, p', attrs', mem') ← add_pdt_attr p token.topic type token.len c.attrs mem
  ok (some token, store_pdt c (store_fmt p' (kept_fmt attr fmt token.topic)) attrs' mem')

unfoldable pub add_g1_token :
    (topic key token_topic type offset len : ℕ) → Catalog → Run (Option G1Token × Catalog)
add_g1_token topic key token_topic type offset len c =
    if topic == 0 || token_topic == 0 || len == 0
    then ok (none, c)
    else elim (get_g1_fmt topic key c) [
      | none ↦ ok (none, c)
      | some (p, fmt) ↦
          let (linked, mem') = add_g1_token_internal fmt token_topic offset len c.mem in
          elim linked [
            | none ↦ ok (none, record c { mem = mem' })
            | some (token, fmt') ↦ link_token c p fmt' token type mem'
          ]
    ]

unfoldable pub del_g1_token : (topic key token_topic : ℕ) → Catalog → Run Catalog
del_g1_token topic key token_topic c =
    if topic == 0 || token_topic == 0 then ok c else elim (get_g1_fmt topic key c) [
      | none ↦ ok c
      | some (p, fmt) ↦ do
        (p', attrs') ← del_pdt_attr p token_topic c.attrs
        ok (store_pdt c (store_fmt p' (del_g1_token_internal fmt token_topic)) attrs' c.mem)
    ]

-- `pkt` is the memory from the pointer on. A format that is stored under the key already is replaced
-- in the map, and is not freed.
unfoldable pub add_g1_fmt :
    (topic key size : ℕ) (pkt : List ℕ) (pkt_len offset len : ℕ)
    → Catalog
    → Run (Option G1Fmt × Catalog)
add_g1_fmt topic key size pkt pkt_len offset len c = elim (get_pdt topic c) [
  | none ↦ ok (none, c)
  | some p ↦
      let (got, mem') = malloc c.mem in
      if got
      then (do
        bytes ← memcpy (replicate 128 0) 0 pkt pkt_len
        let fmt : G1Fmt = record {
          key = key;
          size = size;
          pkt = bytes;
          pkt_len = pkt_len;
          offset = offset;
          len = len;
          token = [];
        }
        ok (some fmt, store_pdt c (store_fmt p fmt) c.attrs mem'))
      else ok (none, record c { mem = mem' })
]

-- The loop that gives back the attributes of the tokens.
unfoldable pub release_tokens : List G1Token → Pdt → Attrs → Run (Pdt × Attrs)
release_tokens [] p attrs = ok (p, attrs)
release_tokens (token ∷ rest) p attrs = do
  (p', attrs') ← del_pdt_attr p token.topic attrs
  release_tokens rest p' attrs'

unfoldable pub del_g1_fmt_internal : G1Fmt → Pdt → Attrs → Run (Pdt × Attrs)
del_g1_fmt_internal fmt p attrs = do
  (p', attrs') ← release_tokens fmt.token p attrs
  m ← removed (hash_map_remove p'.fmt_map fmt.key)
  ok (record p' { fmt_map = m }, attrs')

unfoldable pub del_g1_fmt : (topic key : ℕ) → Catalog → Run Catalog
del_g1_fmt topic key c = elim (get_g1_fmt topic key c) [
  | none ↦ ok c
  | some (p, fmt) ↦ do
    (p', attrs') ← del_g1_fmt_internal fmt p c.attrs
    ok (store_pdt c p' attrs' c.mem)
]

-- One round of `hash_map_work(&pdt->fmt_map, hash_del_fmt)`.
unfoldable pub hash_del_fmt : Run (Pdt × Attrs) → ℕ × G1Fmt → Run (Pdt × Attrs)
hash_del_fmt r (_, fmt) = do (p, attrs) ← r; del_g1_fmt_internal fmt p attrs

unfoldable pub del_pdt : ℕ → Catalog → Run Catalog
del_pdt topic c = elim (get_pdt topic c) [
  | none ↦ ok c
  | some p ↦ do
    (_, attrs') ← hash_map_work p.fmt_map hash_del_fmt (ok (p, c.attrs))
    m ← removed (hash_map_remove c.pdts topic)
    ok (record c { attrs = attrs'; pdts = m })
]
