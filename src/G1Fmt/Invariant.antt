-- ===== src/G1Fmt/Invariant.antt =====
-- The well-formedness of the whole catalogue, with the reference counts of products and attributes.
use ece_lib.Base.{
  ℕ, ◌+◌, ◌≤◌, ◌<◌, ◌≡◌, refl, ◌≢◌, inl, inr, ◌∙◌, ap, sym, subst, ap₂, Option, none, some, arith,
  ◌==◌, ◌^◌, Bool-cases, ==_iff, All,
}
use ece_lib.Machine.{Memory}
use ece_lib.HashMap.Keys.{int_key, int_cmp_iff}
use ece_lib.HashMap.{hash_map_get, hash_map_put}
use ece_lib.HashMap.Invariant.{IsValid}
use ece_lib.HashMap.Put.{put-Written}
use ece_lib.HashMap.Sum.{total, weight, total-put, weight-le-total}
use ece_lib.Attr.{Attrs}
use ece_lib.Attr.Refs.{ref_of, refs, IsAttrs, Counts}
use ece_lib.Token.{G1Token, G1Fmt}
use ece_lib.Token.Layout.{IsLaidOut, uses}
use ece_lib.Pdt.{Pdt, Catalog, get_pdt}
use ece_lib.Pdt.Refs.{held, AreHeld, Holds}
use ece_lib.G1Fmt.{store_fmt, store_pdt, get_g1_fmt}

-- How many tokens in the formats of the product have the topic.
unfoldable pub tokens_of : ℕ → Pdt → ℕ
tokens_of t p = total (λ fmt. uses t fmt.token) p.fmt_map

abbrev pub IsTopic : G1Token → Type 0
IsTopic t = (t.topic ≢ 0) × (t.topic < 2 ^ 32)

pub record IsFmt (key : ℕ) (fmt : G1Fmt) : Type 0 where
  pub own : fmt.key ≡ key
  pub small : fmt.size < 2 ^ 64
  pub laid : IsLaidOut 0 fmt.size fmt.token
  pub topics : All IsTopic fmt.token

abbrev pub AreFmts : Option G1Fmt → ℕ → Type 0
AreFmts none key = Unit
AreFmts (some fmt) key = IsFmt key fmt

pub record IsPdt (topic : ℕ) (p : Pdt) : Type 0 where
  pub own : p.topic ≡ topic
  pub holds : AreHeld p.attr_map
  pub fmts : IsValid p.fmt_map
  pub each : (key : ℕ) → key < 2 ^ 32 → AreFmts (hash_map_get p.fmt_map key) key
  pub balanced : (t : ℕ) → t < 2 ^ 32 → held p t ≡ tokens_of t p

abbrev pub ArePdts : Option Pdt → ℕ → Type 0
ArePdts none topic = Unit
ArePdts (some p) topic = IsPdt topic p

pub record IsCatalog (c : Catalog) : Type 0 where
  pub attrs : IsAttrs c.attrs
  pub pdts : IsValid c.pdts
  pub each : (topic : ℕ) → topic < 2 ^ 32 → ArePdts (get_pdt topic c) topic
  pub balanced : (t : ℕ) → t < 2 ^ 32 → refs c.attrs t ≡ total (λ p. held p t) c.pdts

-- No counter of the topic is at its end.
pub record Room (c : Catalog) (p : Pdt) (topic : ℕ) : Type 0 where
  pub in_attrs : refs c.attrs topic + 1 < 2 ^ 64
  pub in_pdt : held p topic + 1 < 2 ^ 64

-- The attributes and the product have gained or lost the same references.
abbrev pub Moves : Pdt → Attrs → Pdt → Attrs → Type 0
Moves p attrs p' attrs' = (t : ℕ) → t < 2 ^ 32 → refs attrs' t + held p t ≡ refs attrs t + held p' t

-- A change of both by the same amount in one topic.
pub Holds-Moves :
    {p p' : Pdt} {attrs attrs' : Attrs} {topic n k : ℕ}
    → Holds p topic n p'
    → Counts attrs topic k attrs'
    → k + held p topic ≡ refs attrs topic + n
    → Moves p attrs p' attrs'
unfolding refs
Holds-Moves {topic} h c e t in_range = elim (Bool-cases (t == topic)) [
  | inl here ↦ rw ((==_iff t topic).0 here) (omega (arith, h.counted, c.counted))
  | inr there ↦
      let ne : t ≢ topic = ground arith in
      omega (arith, h.others t in_range ne, ap ref_of (c.others t in_range ne))
]

-- Storing a product with attributes that have moved along keeps the catalogue.
pub store_pdt-IsCatalog :
    (c : Catalog) (topic : ℕ) (p p' : Pdt) (attrs' : Attrs) (mem : Memory)
    → IsCatalog c
    → topic < 2 ^ 32
    → get_pdt topic c ≡ some p
    → IsPdt topic p'
    → IsAttrs attrs'
    → Moves p c.attrs p' attrs'
    → IsCatalog (store_pdt c p' attrs' mem)
unfolding get_pdt
store_pdt-IsCatalog c topic p p' attrs' mem v in_range there is w moves =
    let put = put-Written c.pdts v.pdts topic in_range p' in
    subst (λ k. IsCatalog (record c { attrs = attrs'; pdts = hash_map_put c.pdts k p'; mem = mem }))
      (sym is.own)
      (record {
        attrs = w;
        pdts = put.valid;
        each = λ t h. rw (put.reads t h) (elim (Bool-cases (int_key.same topic t)) [
          | inl here ↦ rw here (rw ((int_cmp_iff topic t in_range h).0 here) at is)
          | inr other ↦ rw other (v.each t h)
        ]);
        balanced = λ t h.
            let moved : weight (λ q. held q t) (hash_map_get c.pdts topic) ≡ held p t = rw there in
            omega (
              arith,
              total-put (λ q. held q t) c.pdts v.pdts topic in_range p',
              moved,
              v.balanced t h,
              moves t h,
            );
      })

-- Storing a format in its product keeps the product, if what the product holds has moved along with
-- what the tokens use.
pub store_fmt-IsPdt :
    (topic key : ℕ) (p q : Pdt) (old : Option G1Fmt) (fmt' : G1Fmt)
    → IsPdt topic p
    → key < 2 ^ 32
    → hash_map_get p.fmt_map key ≡ old
    → IsFmt key fmt'
    → q ≡ record p { attr_map = q.attr_map }
    → AreHeld q.attr_map
    → ((t : ℕ)
        → t < 2 ^ 32
        → held q t + weight (λ (f : G1Fmt). uses t f.token) old ≡ held p t + uses t fmt'.token)
    → IsPdt topic (store_fmt q fmt')
unfolding tokens_of held
store_fmt-IsPdt topic key p q old fmt' v in_range there is same holds moved =
    let maps : q.fmt_map ≡ p.fmt_map = ap (λ (r : Pdt). r.fmt_map) same in
    let put = put-Written p.fmt_map v.fmts key in_range fmt' in
    let stored : hash_map_put q.fmt_map fmt'.key fmt' ≡ hash_map_put p.fmt_map key fmt' =
      ap₂ (λ m k. hash_map_put m k fmt') maps is.own in
    record {
      own = ap (λ (r : Pdt). r.topic) same ∙ v.own;
      holds = holds;
      fmts = subst IsValid (sym stored) put.valid;
      each = λ k h.
          subst (λ m. AreFmts (hash_map_get m k) k) (sym stored)
            (rw (put.reads k h) (elim (Bool-cases (int_key.same key k)) [
              | inl here ↦ rw here (rw ((int_cmp_iff key k in_range h).0 here) at is)
              | inr other ↦ rw other (v.each k h)
            ]));
      balanced = λ t h. omega (
        arith,
        ap (λ m. total (λ (f : G1Fmt). uses t f.token) m) stored,
        total-put (λ (f : G1Fmt). uses t f.token) p.fmt_map v.fmts key in_range fmt',
        ap (weight (λ (f : G1Fmt). uses t f.token)) there,
        v.balanced t h,
        moved t h,
      );
    }

-- A stored format is counted with its product, and a stored product with the attributes.
pub uses-le-tokens_of :
    (t key : ℕ) (topic : ℕ) (p : Pdt) (fmt : G1Fmt)
    → IsPdt topic p
    → key < 2 ^ 32
    → hash_map_get p.fmt_map key ≡ some fmt
    → uses t fmt.token ≤ tokens_of t p
unfolding tokens_of
uses-le-tokens_of t key topic p fmt v in_range there =
    let at : weight (λ (f : G1Fmt). uses t f.token) (hash_map_get p.fmt_map key)
        ≡ uses t fmt.token =
      rw there in
    omega (arith, weight-le-total (λ (f : G1Fmt). uses t f.token) p.fmt_map v.fmts key in_range, at)

pub held-le-refs :
    (t topic : ℕ) (c : Catalog) (p : Pdt)
    → IsCatalog c
    → topic < 2 ^ 32
    → t < 2 ^ 32
    → get_pdt topic c ≡ some p
    → held p t ≤ refs c.attrs t
unfolding get_pdt
held-le-refs t topic c p v in_range t_range there =
    let at : weight (λ q. held q t) (hash_map_get c.pdts topic) ≡ held p t = rw there in
    omega (
      arith,
      weight-le-total (λ q. held q t) c.pdts v.pdts topic in_range,
      at,
      v.balanced t t_range,
    )

-- What is found after a product and its format have been stored.
pub get-store :
    (c : Catalog) (topic key : ℕ) (p q : Pdt) (fmt : G1Fmt) (attrs' : Attrs) (mem : Memory)
    → IsCatalog c
    → IsPdt topic p
    → topic < 2 ^ 32
    → key < 2 ^ 32
    → fmt.key ≡ key
    → q ≡ record p { attr_map = q.attr_map }
    → (get_pdt topic (store_pdt c (store_fmt q fmt) attrs' mem) ≡ some (store_fmt q fmt))
      × (get_g1_fmt topic key (store_pdt c (store_fmt q fmt) attrs' mem)
          ≡ some (store_fmt q fmt, fmt))
unfolding get_g1_fmt
get-store c topic key p q fmt attrs' mem v is topic_range key_range own same =
    let maps : q.fmt_map ≡ p.fmt_map = ap (λ (r : Pdt). r.fmt_map) same in
    let topics : q.topic ≡ topic = ap (λ (r : Pdt). r.topic) same ∙ is.own in
    let here = int_cmp_iff topic topic topic_range topic_range in
    let pdt_there : hash_map_get (hash_map_put c.pdts q.topic (store_fmt q fmt)) topic
        ≡ some (store_fmt q fmt) =
      ap (λ k. hash_map_get (hash_map_put c.pdts k (store_fmt q fmt)) topic) topics
      ∙ (put-Written c.pdts v.pdts topic topic_range (store_fmt q fmt)).reads topic topic_range
      ∙ ground (arith, here) in
    let fmt_there : hash_map_get (hash_map_put q.fmt_map fmt.key fmt) key ≡ some fmt =
      ap₂ (λ m k. hash_map_get (hash_map_put m k fmt) key) maps own
      ∙ (put-Written p.fmt_map is.fmts key key_range fmt).reads key key_range
      ∙ ground (arith, int_cmp_iff key key key_range key_range) in
    (pdt_there, rw (get_g1_fmt, pdt_there, fmt_there) refl)
