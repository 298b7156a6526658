-- ===== src/G1Fmt/AddToken.antt =====
-- `add_g1_token` of src/g1_fmt.c and the reference counts.
use ece_lib.Base.{
  ℕ, ◌+◌, ◌<◌, ◌≡◌, refl, ◌≢◌, inl, inr, Option, none, some, arith, List, [], ◌∷◌, ◌==◌, ◌^◌, ◌||◌,
  Option-cases, Bool-cases, All,
}
use ece_lib.Machine.{Memory, Returns, u64, malloc}
use ece_lib.HashMap.Keys.{int_key}
use ece_lib.HashMap.{hash_map_get}
use ece_lib.HashMap.Chain.{to_nat}
use ece_lib.Attr.{EdgeAttr, Attrs}
use ece_lib.Token.{
  G1Token, G1Fmt, insert_token, remove_token, add_g1_token_internal, del_g1_token_internal,
}
use ece_lib.Token.Layout.{
  IfSome, uses, insert-IsLaidOut, remove-IsLaidOut, uses-insert, uses-remove,
}
use ece_lib.Pdt.{Pdt, Catalog, get_pdt}
use ece_lib.Pdt.Refs.{held, Holds-all}
use ece_lib.Pdt.AddDel.{AddedBoth, add_pdt_attr-AddedBoth}
use ece_lib.G1Fmt.{store_fmt, store_pdt, get_g1_fmt, link_token, add_g1_token, kept_fmt}
use ece_lib.G1Fmt.Invariant.{
  IsTopic, IsFmt, IsPdt, IsCatalog, Room, Holds-Moves, store_pdt-IsCatalog, store_fmt-IsPdt,
}

-- Where a format is found, its product is the one that is stored under the topic.
pub get_g1_fmt-found :
    (topic key : ℕ) (c : Catalog) (p : Pdt) (fmt : G1Fmt)
    → get_g1_fmt topic key c ≡ some (p, fmt)
    → (get_pdt topic c ≡ some p) × (hash_map_get p.fmt_map key ≡ some fmt)
unfolding get_g1_fmt
get_g1_fmt-found topic key c p fmt found = elim (Option-cases (get_pdt topic c)) [
  | inl absent ↦ absurd (ground arith)
  | inr (q, there) ↦ elim (Option-cases (hash_map_get q.fmt_map key)) [
    | inl lost ↦ absurd (ground arith)
    | inr (f, at) ↦ ground arith
  ]
]

pub get_g1_fmt-absent :
    (topic key : ℕ) (c : Catalog) (p : Pdt)
    → get_pdt topic c ≡ some p
    → get_g1_fmt topic key c ≡ none
    → hash_map_get p.fmt_map key ≡ none
unfolding get_g1_fmt
get_g1_fmt-absent topic key c p there absent = elim (Option-cases (hash_map_get p.fmt_map key)) [
  | inl lost ↦ lost
  | inr (fmt, at) ↦ absurd (ground arith)
]

topics-insert :
    (size : ℕ) (t : G1Token) (end : ℕ) (ts : List G1Token)
    → IsTopic t
    → All IsTopic ts
    → IfSome (All IsTopic) (insert_token size t end ts)
unfolding insert_token
topics-insert size t end [] is all = ground arith
topics-insert size t end (cur ∷ rest) is all =
    ground (arith, topics-insert size t (u64 (cur.offset + cur.len)) rest is all.1)

topics-remove :
    (topic : ℕ) (ts : List G1Token) → All IsTopic ts → All IsTopic (remove_token topic ts)
unfolding remove_token
topics-remove topic [] all = all
topics-remove topic (cur ∷ rest) all = ground (arith, topics-remove topic rest all.1)

pub remove-IsFmt :
    (key topic : ℕ) (fmt : G1Fmt) → IsFmt key fmt → IsFmt key (del_g1_token_internal fmt topic)
unfolding del_g1_token_internal
remove-IsFmt key topic fmt v = record {
  own = v.own;
  small = v.small;
  laid = remove-IsLaidOut topic 0 fmt.size fmt.token v.laid;
  topics = topics-remove topic fmt.token v.topics;
}

-- What `add_g1_token_internal` returns: the new token, and a format that is well formed and uses its
-- topic once more.
Linked : ℕ → G1Fmt → (topic len : ℕ) → Option (G1Token × G1Fmt) → Type 0
Linked key fmt topic len none = Unit
Linked key fmt topic len (some (token, fmt')) =
    (token.topic ≡ topic)
    × (token.len ≡ len)
    × IsFmt key fmt'
    × ((t : ℕ) → uses t fmt'.token ≡ to_nat (t == topic) + uses t fmt.token)

add_internal-Linked :
    (key topic offset len : ℕ) (fmt : G1Fmt) (mem : Memory)
    → IsFmt key fmt
    → topic ≢ 0
    → topic < 2 ^ 32
    → offset + len < 2 ^ 64
    → Linked key fmt topic len (add_g1_token_internal fmt topic offset len mem).0
unfolding Linked add_g1_token_internal
add_internal-Linked key topic offset len fmt mem v ne in_range no_wrap =
    let token : G1Token = record { topic = topic; offset = offset; len = len } in
    elim (Bool-cases (malloc mem).0) [
      | inr out ↦ rw (add_g1_token_internal, out) tt
      | inl got ↦ elim (Option-cases (insert_token fmt.size token 0 fmt.token)) [
        | inl lost ↦ rw (add_g1_token_internal, got, lost) tt
        | inr (ts, found) ↦
            rw (add_g1_token_internal, got, found)
              (
                refl,
                refl,
                record {
                  own = v.own;
                  small = v.small;
                  laid =
                      rw found at
                        (insert-IsLaidOut fmt.size token v.small no_wrap 0 fmt.token v.laid);
                  topics =
                      rw found at
                        (topics-insert fmt.size token 0 fmt.token (ne, in_range) v.topics);
                },
                λ t. uses-insert fmt.size token 0 fmt.token ts t found,
              )
      ]
    ]

module _ (c : Catalog) (v : IsCatalog c) (topic key : ℕ) (topic_range : topic < 2 ^ 32)
    (key_range : key < 2 ^ 32) (p : Pdt) (fmt : G1Fmt) (there : get_pdt topic c ≡ some p)
    (at : hash_map_get p.fmt_map key ≡ some fmt) where
  pub pdt : IsPdt topic p
  pdt = rw there at (v.each topic topic_range)

  abbrev Kept : Option G1Token × Catalog → Type 0
  Kept (_, c') = IsCatalog c'

  module _ (token : G1Token) (fmt' : G1Fmt) (is_topic : IsTopic token) (is : IsFmt key fmt')
      (more : (t : ℕ) → uses t fmt'.token ≡ to_nat (t == token.topic) + uses t fmt.token) where
    abbrev linked_fmt : Option EdgeAttr → G1Fmt
    linked_fmt r = kept_fmt r fmt' token.topic

    linked-IsCatalog :
        (r : Option EdgeAttr) (p' : Pdt) (attrs' : Attrs) (mem : Memory)
        → AddedBoth p pdt.holds token.topic is_topic.1 c.attrs v.attrs (r, p', attrs', mem)
        → IsCatalog (store_pdt c (store_fmt p' (linked_fmt r)) attrs' mem)
    unfolding held del_g1_token_internal
    linked-IsCatalog none p' attrs' mem (side, same) =
        let back = λ (t : ℕ). uses-remove token.topic t fmt'.token in
        store_pdt-IsCatalog c topic p (store_fmt p' (linked_fmt none)) attrs' mem v topic_range
          there
          (store_fmt-IsPdt topic key p p' (some fmt) (linked_fmt none) pdt key_range at
            (remove-IsFmt key token.topic fmt' is) side.rest side.kept
            (λ t h. ground (arith, Holds-all side t h, more t, back t, more token.topic)))
          (rw same v.attrs) (λ t h. rw same (ground (arith, Holds-all side t h)))
    linked-IsCatalog (some a) p' attrs' mem (side, counts) =
        store_pdt-IsCatalog c topic p (store_fmt p' fmt') attrs' mem v topic_range there
          (store_fmt-IsPdt topic key p p' (some fmt) fmt' pdt key_range at is side.rest side.kept
            (λ t h. ground (arith, Holds-all side t h, more t)))
          counts.kept (Holds-Moves side counts (omega arith))

    link_token-IsCatalog :
        (type : ℕ) (mem : Memory)
        → Room c p token.topic
        → Returns (link_token c p fmt' token type mem) Kept
    unfolding link_token
    link_token-IsCatalog type mem room =
        let ((r, p', attrs', mem'), run, both) =
          add_pdt_attr-AddedBoth p pdt.holds token.topic is_topic.1 c.attrs v.attrs type token.len
            mem room.in_pdt room.in_attrs in
        (
          (some token, store_pdt c (store_fmt p' (linked_fmt r)) attrs' mem'),
          rw (link_token, run) refl,
          linked-IsCatalog r p' attrs' mem' both,
        )

pub mem-IsCatalog :
    (c : Catalog) → IsCatalog c → (mem : Memory) → IsCatalog (record c { mem = mem })
unfolding get_pdt
mem-IsCatalog c v mem = record {
  attrs = v.attrs;
  pdts = v.pdts;
  each = v.each;
  balanced = v.balanced;
}

-- From a well-formed catalogue, with arguments of 32 bits, an end of the token that does not wrap
-- and counters that are not at their end, `add_g1_token` never faults and leaves the catalogue
-- well formed: on every branch, also where memory runs out or the attribute is refused, the tokens
-- stay laid out and each attribute counts as many references as there are tokens of its topic.
pub add_g1_token-IsCatalog :
    (topic key token_topic type offset len : ℕ) (c : Catalog)
    → IsCatalog c
    → topic < 2 ^ 32
    → key < 2 ^ 32
    → token_topic < 2 ^ 32
    → offset + len < 2 ^ 64
    → ((p : Pdt) → get_pdt topic c ≡ some p → Room c p token_topic)
    → Returns (add_g1_token topic key token_topic type offset len c) λ (_, c'). IsCatalog c'
unfolding add_g1_token Linked
add_g1_token-IsCatalog topic key token_topic type offset len c v h k w no_wrap room =
    elim (Bool-cases (topic == 0 || token_topic == 0 || len == 0)) [
      | inl refused ↦ ((none, c), rw (add_g1_token, refused) refl, v)
      | inr fine ↦ elim (Option-cases (get_g1_fmt topic key c)) [
        | inl absent ↦ ((none, c), rw (add_g1_token, fine, absent) refl, v)
        | inr ((p, fmt), found) ↦
            let (there, at) = get_g1_fmt-found topic key c p fmt found in
            let is_pdt = pdt c v topic key h k p fmt there at in
            let is : IsFmt key fmt = rw at at (is_pdt.each key k) in
            let linked =
              add_internal-Linked key token_topic offset len fmt c.mem is (ground arith) w
                no_wrap in
            elim (Option-cases (add_g1_token_internal fmt token_topic offset len c.mem).0) [
              | inl lost ↦ (
                (
                  none,
                  record c { mem = (add_g1_token_internal fmt token_topic offset len c.mem).1 },
                ),
                rw (add_g1_token, fine, found, lost) refl,
                mem-IsCatalog c v (add_g1_token_internal fmt token_topic offset len c.mem).1,
              )
              | inr ((token, fmt'), got) ↦
                  let (own, long, fmt_is, more) = rw got at linked in
                  rw (add_g1_token, fine, found, got)
                    (link_token-IsCatalog c v topic key h k p fmt there at token fmt'
                      (rw own (ground arith, w)) fmt_is (rw own more) type
                      (add_g1_token_internal fmt token_topic offset len c.mem).1
                      (rw own (room p there)))
            ]
      ]
    ]
