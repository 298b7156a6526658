-- ===== src/G1Fmt/DelToken.antt =====
-- `del_g1_token` of src/g1_fmt.c and the reference counts.
use ece_lib.Base.{
  ℕ, ◌+◌, ◌-◌, ◌≤◌, ◌<◌, ◌≡◌, refl, ◌≢◌, inl, inr, ap, ap₂, false, some, arith, ◌==◌, ◌^◌, ◌||◌,
  Option-cases, Bool-cases,
}
use ece_lib.Machine.{ok, Returns}
use ece_lib.HashMap.Keys.{int_key}
use ece_lib.HashMap.{hash_map_get, hash_map_put}
use ece_lib.HashMap.Sum.{total, weight, total-put}
use ece_lib.Attr.{Attrs}
use ece_lib.Attr.Refs.{refs}
use ece_lib.Token.{G1Fmt, del_g1_token_internal}
use ece_lib.Token.Layout.{uses, uses-remove, remove_unused}
use ece_lib.Pdt.{Pdt, Catalog, del_pdt_attr}
use ece_lib.Pdt.Refs.{held, Holds, Holds-all}
use ece_lib.Pdt.AddDel.{del_pdt_attr-Holds}
use ece_lib.G1Fmt.{store_fmt, store_pdt, get_g1_fmt, del_g1_token}
use ece_lib.G1Fmt.Invariant.{
  IsFmt, IsPdt, IsCatalog, Holds-Moves, store_pdt-IsCatalog, store_fmt-IsPdt, tokens_of,
  uses-le-tokens_of, held-le-refs, get-store,
}
use ece_lib.G1Fmt.AddToken.{get_g1_fmt-found, pdt, remove-IsFmt}

module _ (topic key token_topic : ℕ) (c : Catalog) (v : IsCatalog c) (topic_range : topic < 2 ^ 32)
    (key_range : key < 2 ^ 32) (token_range : token_topic < 2 ^ 32) where
  -- Where the format is found and the topic is one, the call is a `del_pdt_attr` and a write back.
  del_g1_token-run :
      (p : Pdt) (fmt : G1Fmt) (p' : Pdt) (attrs' : Attrs)
      → (topic == 0 || token_topic == 0) ≡ false
      → get_g1_fmt topic key c ≡ some (p, fmt)
      → del_pdt_attr p token_topic c.attrs ≡ ok (p', attrs')
      → del_g1_token topic key token_topic c
        ≡ ok (store_pdt c (store_fmt p' (del_g1_token_internal fmt token_topic)) attrs' c.mem)
  unfolding del_g1_token
  del_g1_token-run p fmt p' attrs' fine found run = rw (del_g1_token, fine, found, run) refl

  held_enough :
      (p : Pdt) (fmt : G1Fmt)
      → IsPdt topic p
      → hash_map_get p.fmt_map key ≡ some fmt
      → (t : ℕ) → t < 2 ^ 32
      → uses t fmt.token ≤ held p t
  held_enough p fmt is at t h =
      omega (arith, is.balanced t h, uses-le-tokens_of t key topic p fmt is key_range at)

  -- From a well-formed catalogue `del_g1_token` never faults and leaves the catalogue well formed,
  -- if the format, where it is there, has a token of the topic.
  pub del_g1_token-IsCatalog :
      ((p : Pdt) (fmt : G1Fmt)
        → get_g1_fmt topic key c ≡ some (p, fmt)
        → 0 < uses token_topic fmt.token)
      → Returns (del_g1_token topic key token_topic c) IsCatalog
  unfolding del_g1_token held del_g1_token_internal
  del_g1_token-IsCatalog has = elim (Bool-cases (topic == 0 || token_topic == 0)) [
    | inl refused ↦ (c, rw (del_g1_token, refused) refl, v)
    | inr fine ↦ elim (Option-cases (get_g1_fmt topic key c)) [
      | inl absent ↦ (c, rw (del_g1_token, fine, absent) refl, v)
      | inr ((p, fmt), found) ↦
          let (there, at) = get_g1_fmt-found topic key c p fmt found in
          let is_pdt = pdt c v topic key topic_range key_range p fmt there at in
          let is : IsFmt key fmt = rw at at (is_pdt.each key key_range) in
          let ((p', attrs'), run, (side, counts)) =
            del_pdt_attr-Holds p is_pdt.holds token_topic token_range c.attrs v.attrs
              (ground arith) in
          (
            store_pdt c (store_fmt p' (del_g1_token_internal fmt token_topic)) attrs' c.mem,
            del_g1_token-run p fmt p' attrs' fine found run,
            store_pdt-IsCatalog c topic p (store_fmt p' (del_g1_token_internal fmt token_topic))
                attrs' c.mem v topic_range there
                (store_fmt-IsPdt topic key p p' (some fmt) (del_g1_token_internal fmt token_topic)
                  is_pdt key_range at (remove-IsFmt key token_topic fmt is) side.rest side.kept
                  (λ t h. ground (
                    arith,
                    Holds-all side t h,
                    uses-remove token_topic t fmt.token,
                    has p fmt found,
                    held_enough p fmt is_pdt at t h,
                  )))
                counts.kept
                (Holds-Moves side counts (
                  omega (
                    arith,
                    held_enough p fmt is_pdt at token_topic token_range,
                    has p fmt found,
                    held-le-refs token_topic topic c p v topic_range token_range there,
                  ))),
          )
    ]
  ]

  -- A product that has lost a reference and no token is not balanced.
  not_balanced :
      (p : Pdt) (fmt : G1Fmt) (p' : Pdt)
      → IsPdt topic p
      → IsFmt key fmt
      → hash_map_get p.fmt_map key ≡ some fmt
      → 0 < tokens_of token_topic p
      → Holds p token_topic (held p token_topic - 1) p'
      → IsPdt topic (store_fmt p' fmt)
      → ⊥
  unfolding held tokens_of
  not_balanced p fmt p' is_pdt is at elsewhere side w =
      let stored : hash_map_put p'.fmt_map fmt.key fmt ≡ hash_map_put p.fmt_map key fmt =
        ap₂ (λ m k. hash_map_put m k fmt) (ap (λ (r : Pdt). r.fmt_map) side.rest) is.own in
      let weight_of = λ (f : G1Fmt). uses token_topic f.token in
      let was : weight weight_of (hash_map_get p.fmt_map key) ≡ uses token_topic fmt.token =
        rw at in
      absurd (
        omega (
          arith,
          side.counted,
          w.balanced token_topic token_range,
          is_pdt.balanced token_topic token_range,
          ap (λ m. total weight_of m) stored,
          total-put weight_of p.fmt_map is_pdt.fmts key key_range fmt,
          was,
        ))

  -- Where the format has no token of the topic, and another format of the product has one,
  -- `del_g1_token` leaves the format as it is and takes a reference off the attribute nevertheless:
  -- the catalogue is not well formed any more.
  pub del_g1_token_unbalances :
      (p : Pdt) (fmt : G1Fmt)
      → get_g1_fmt topic key c ≡ some (p, fmt)
      → topic ≢ 0
      → token_topic ≢ 0
      → uses token_topic fmt.token ≡ 0
      → 0 < tokens_of token_topic p
      → Returns (del_g1_token topic key token_topic c) λ c'.
        (refs c'.attrs token_topic + 1 ≡ refs c.attrs token_topic)
        × ((q : Pdt) × (get_g1_fmt topic key c' ≡ some (q, fmt)))
        × ¬ IsCatalog c'
  unfolding del_g1_token_internal
  del_g1_token_unbalances p fmt found ne ne' unused elsewhere =
      let (there, at) = get_g1_fmt-found topic key c p fmt found in
      let is_pdt = pdt c v topic key topic_range key_range p fmt there at in
      let is : IsFmt key fmt = rw at at (is_pdt.each key key_range) in
      let ((p', attrs'), run, (side, counts)) =
        del_pdt_attr-Holds p is_pdt.holds token_topic token_range c.attrs v.attrs ne' in
      let same : del_g1_token_internal fmt token_topic ≡ fmt =
        ap (λ ts. record fmt { token = ts }) (remove_unused token_topic fmt.token unused) in
      let (pdt_there, fmt_there) =
        get-store c topic key p p' fmt attrs' c.mem v is_pdt topic_range key_range is.own
          side.rest in
      (
        store_pdt c (store_fmt p' fmt) attrs' c.mem,
        rw same at (del_g1_token-run p fmt p' attrs' (ground arith) found run),
        (
          omega (
            arith,
            counts.counted,
            held-le-refs token_topic topic c p v topic_range token_range there,
            is_pdt.balanced token_topic token_range,
          ),
          (store_fmt p' fmt, fmt_there),
          λ w.
              not_balanced p fmt p' is_pdt is at elsewhere side
                (rw pdt_there at (w.each topic topic_range)),
        ),
      )
