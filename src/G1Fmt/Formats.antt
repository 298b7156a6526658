-- ===== src/G1Fmt/Formats.antt =====
-- `add_pdt` of src/pdt.c and `add_g1_fmt` of src/g1_fmt.c.
use ece_lib.Base.{
  ◌+◌, Option, ℕ, ◌≤◌, ◌<◌, ◌≡◌, refl, inl, inr, ◌∙◌, ap, sym, subst, true, false, none, some,
  arith, List, [], ◌^◌, Option-cases, Bool-cases, length, replicate, length-replicate,
}
use ece_lib.Machine.{fault, out_of_bounds, Returns, malloc, memcpy, length-memcpy}
use ece_lib.HashMap.Keys.{int_key, int_cmp_iff}
use ece_lib.HashMap.{HashMap, hash_map_init, hash_map_get, hash_map_contains_key}
use ece_lib.HashMap.Chain.{is_some}
use ece_lib.HashMap.Put.{Written, put-Written}
use ece_lib.HashMap.Walk.{contains_key-get, init_empty}
use ece_lib.HashMap.Sum.{weight, total-put, total-init}
use ece_lib.Token.{G1Fmt}
use ece_lib.Token.Layout.{uses}
use ece_lib.Pdt.{Pdt, PdtAttr, Catalog, get_pdt, add_pdt}
use ece_lib.Pdt.Refs.{held}
use ece_lib.G1Fmt.{store_fmt, store_pdt, get_g1_fmt, add_g1_fmt}
use ece_lib.G1Fmt.Invariant.{IsPdt, IsCatalog, store_pdt-IsCatalog, store_fmt-IsPdt, tokens_of}
use ece_lib.G1Fmt.AddToken.{get_g1_fmt-absent, mem-IsCatalog}

-- A product as `add_pdt` makes it.
abbrev new_pdt : (addr topic endian : ℕ) → Pdt
new_pdt addr topic endian = record {
  addr = addr;
  topic = topic;
  endian = endian;
  attr_map = hash_map_init 4;
  fmt_map = hash_map_init 4;
}

new-IsPdt : (addr topic endian : ℕ) → IsPdt topic (new_pdt addr topic endian)
unfolding held tokens_of
new-IsPdt addr topic endian = record {
  own = refl;
  holds = record {
    valid = (init_empty {V = PdtAttr} 4 0 (omega arith)).0;
    each = λ t h. rw (init_empty {V = PdtAttr} 4 t (omega arith)).1 tt;
  };
  fmts = (init_empty {V = G1Fmt} 4 0 (omega arith)).0;
  each = λ k h. rw (init_empty {V = G1Fmt} 4 k (omega arith)).1 tt;
  balanced = λ t h.
      rw (init_empty {V = PdtAttr} 4 t (omega arith)).1
        (sym (total-init ℕ G1Fmt (λ fmt. uses t fmt.token) 4));
}

new-held : (addr topic endian t : ℕ) → held (new_pdt addr topic endian) t ≡ 0
unfolding held
new-held addr topic endian t = rw (init_empty {V = PdtAttr} 4 t (omega arith)).1

-- What `add_pdt` has returned and left.
pub data AddedPdt (topic endian : ℕ) (c : Catalog) : Option Pdt → Catalog → Type 0 where
  there_already : is_some (get_pdt topic c) ≡ true → AddedPdt topic endian c none c
  no_memory :
      get_pdt topic c ≡ none
      → (malloc c.mem).0 ≡ false
      → AddedPdt topic endian c none (record c { mem = (malloc c.mem).1 })
  added :
      {m : HashMap ℕ Pdt} (p : Pdt)
      → get_pdt topic c ≡ none
      → (malloc c.mem).0 ≡ true
      → (p.addr ≡ c.next) × (p.topic ≡ topic) × (p.endian ≡ endian)
      → ((t : ℕ) → held p t ≡ 0)
      → Written c.pdts topic p m
      → AddedPdt topic endian c
          (some p)
          (record c { pdts = m; mem = (malloc c.mem).1; next = c.next + 1 })

-- `add_pdt` leaves the catalogue well formed: where the product is there already nothing changes, and
-- where `malloc` fails nothing but the memory; otherwise the new product, which refers to nothing,
-- is returned and is found under its topic, and the other products are as they were.
pub add_pdt-IsCatalog :
    (topic endian : ℕ) (c : Catalog)
    → IsCatalog c
    → topic < 2 ^ 32
    → let (r, c') = add_pdt topic endian c in IsCatalog c' × AddedPdt topic endian c r c'
unfolding add_pdt get_pdt
add_pdt-IsCatalog topic endian c v h = elim (Option-cases (hash_map_get c.pdts topic)) [
  | inr (p, there) ↦
      let taken : hash_map_contains_key c.pdts topic ≡ true =
        contains_key-get c.pdts topic ∙ ap is_some there in
      rw taken (v, there_already (ap is_some there))
  | inl absent ↦
      let free : hash_map_contains_key c.pdts topic ≡ false =
        contains_key-get c.pdts topic ∙ ap is_some absent in
      elim (Bool-cases (malloc c.mem).0) [
        | inr out ↦ rw (free, out) (mem-IsCatalog c v (malloc c.mem).1, no_memory absent out)
        | inl got ↦
            let p = new_pdt c.next topic endian in
            let put = put-Written c.pdts v.pdts topic h p in
            rw (free, got)
              (
                record {
                  attrs = v.attrs;
                  pdts = put.valid;
                  each = λ t t_range.
                      rw (put.reads t t_range) (elim (Bool-cases (int_key.same topic t)) [
                        | inl here ↦ rw here (
                            subst (λ k. IsPdt k p) ((int_cmp_iff topic t h t_range).0 here)
                              (new-IsPdt c.next topic endian))
                        | inr other ↦ rw other (v.each t t_range)
                      ]);
                  balanced = λ t t_range. omega (
                    arith,
                    total-put (λ q. held q t) c.pdts v.pdts topic h p,
                    ap (weight (λ (q : Pdt). held q t)) absent,
                    new-held c.next topic endian t,
                    v.balanced t t_range,
                  );
                },
                added p absent got (refl, refl, refl) (new-held c.next topic endian) put,
              )
      ]
]

-- Under a key that no format of the product has, `add_g1_fmt` of a packet that fits the buffer never
-- faults and leaves the catalogue well formed.
pub add_g1_fmt-IsCatalog :
    (topic key size : ℕ) (pkt : List ℕ) (pkt_len offset len : ℕ) (c : Catalog)
    → IsCatalog c
    → topic < 2 ^ 32
    → key < 2 ^ 32
    → size < 2 ^ 64
    → pkt_len ≤ 128
    → pkt_len ≤ length pkt
    → get_g1_fmt topic key c ≡ none
    → Returns (add_g1_fmt topic key size pkt pkt_len offset len c) λ (_, c'). IsCatalog c'
unfolding add_g1_fmt uses held
add_g1_fmt-IsCatalog topic key size pkt pkt_len offset len c v h k small fits given fresh =
    elim (Option-cases (get_pdt topic c)) [
      | inl absent ↦ ((none, c), rw (add_g1_fmt, absent) refl, v)
      | inr (p, there) ↦ elim (Bool-cases (malloc c.mem).0) [
        | inr out ↦ (
          (none, record c { mem = (malloc c.mem).1 }),
          rw (add_g1_fmt, there, out) refl,
          mem-IsCatalog c v (malloc c.mem).1,
        )
        | inl got ↦
            let (bytes, run, _) =
              length-memcpy (replicate 128 0) 0 pkt pkt_len given
                (rw (length-replicate {A = ℕ} 128 0) (omega arith)) in
            let fmt : G1Fmt = record {
              key = key;
              size = size;
              pkt = bytes;
              pkt_len = pkt_len;
              offset = offset;
              len = len;
              token = [];
            } in
            let is : IsPdt topic p = rw there at (v.each topic h) in
            let none_there : hash_map_get p.fmt_map key ≡ none =
              get_g1_fmt-absent topic key c p there fresh in
            (
              (some fmt, store_pdt c (store_fmt p fmt) c.attrs (malloc c.mem).1),
              rw (add_g1_fmt, there, got, run) refl,
              store_pdt-IsCatalog c topic p (store_fmt p fmt) c.attrs (malloc c.mem).1 v h there
                  (store_fmt-IsPdt topic key p p none fmt is k none_there
                    (record { own = refl; small = small; laid = omega arith; topics = tt }) refl
                    is.holds (λ t t_range. refl))
                  v.attrs (λ t t_range. refl),
            )
      ]
    ]

-- A packet that is longer than the buffer of a format is copied beyond its end, if the product is
-- there and memory for the format is got.
pub add_g1_fmt_overflow :
    (topic key size : ℕ) (pkt : List ℕ) (pkt_len offset len : ℕ) (c : Catalog) (p : Pdt)
    → get_pdt topic c ≡ some p
    → (malloc c.mem).0 ≡ true
    → 128 < pkt_len
    → add_g1_fmt topic key size pkt pkt_len offset len c ≡ fault out_of_bounds
unfolding add_g1_fmt memcpy
add_g1_fmt_overflow topic key size pkt pkt_len offset len c p there got over =
    let beyond : memcpy (replicate 128 0) 0 pkt pkt_len ≡ fault out_of_bounds =
      rw (length-replicate {A = ℕ} 128 0) (ground arith) in
    rw (add_g1_fmt, there, got, beyond) refl
