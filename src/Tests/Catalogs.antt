-- ===== src/Tests/Catalogs.antt =====
-- A catalogue with one product and two formats, grown from the start by the operations.
use ece_lib.Base.{ℕ, ◌+◌, ◌≡◌, refl, ◌<◌, [], ◌∷◌, Option, none, some, arith, true, ap, ◌⊎◌, sym}
use ece_lib.Machine.{Run, ok, fault, Returns, malloc, memcpy}
use ece_lib.LinkedList.{linked_list_init, linked_list_prepend}
use ece_lib.HashMap.Keys.{int_key, int_cmp, int_mix, int_hash_func}
use ece_lib.HashMap.Chain.{is_some}
use ece_lib.HashMap.{
  hash_map_init, hash_map_get, hash_map_put, hash_map_contains_key, find, has_key, assign, list_of,
  bucket_of,
}
use ece_lib.Attr.{attr_init, get_attr, add_attr}
use ece_lib.Attr.Refs.{refs}
use ece_lib.Token.{G1Fmt, insert_token, add_g1_token_internal}
use ece_lib.Token.Layout.{uses}
use ece_lib.Pdt.{Pdt, Catalog, pdt_init, get_pdt, add_pdt, add_pdt_attr, hold_attr, add_held_attr}
use ece_lib.Pdt.Refs.{held}
use ece_lib.G1Fmt.{get_g1_fmt, add_g1_token, del_g1_token, add_g1_fmt, del_g1_fmt, link_token}
use ece_lib.G1Fmt.Invariant.{IsCatalog, Room}
use ece_lib.G1Fmt.Start.{start, init-IsCatalog}
use ece_lib.G1Fmt.AddToken.{add_g1_token-IsCatalog}
use ece_lib.G1Fmt.DelToken.{del_g1_token-IsCatalog}
use ece_lib.G1Fmt.Formats.{AddedPdt, add_g1_fmt-IsCatalog, add_pdt-IsCatalog}
use ece_lib.G1Fmt.{del_pdt}
use ece_lib.G1Fmt.DelProduct.{del_pdt-IsCatalog, held_by}
use ece_lib.G1Fmt.DelFormat.{del_g1_fmt-IsCatalog, used_by}

abbrev pub c0 : Catalog
c0 = record { attrs = hash_map_init 64; pdts = hash_map_init 16; mem = []; next = 1 }

c0-IsCatalog : IsCatalog c0
unfolding start attr_init pdt_init
c0-IsCatalog = (init-IsCatalog [] 1).0

abbrev pub c1 : Catalog
c1 = (add_pdt 7 1 c0).1

add_pdt-IsCatalog_example : IsCatalog c1 × AddedPdt 7 1 c0 (add_pdt 7 1 c0).0 c1
add_pdt-IsCatalog_example = add_pdt-IsCatalog 7 1 c0 c0-IsCatalog (omega arith)

-- What a run has left.
abbrev pub state_of {ℓ} : {A : Type ℓ} → Run (A × Catalog) → Catalog
state_of (ok (_, c)) = c
state_of (fault _) = c0

abbrev pub c2 : Catalog
c2 = state_of (add_g1_fmt 7 0x10 10 (0 ∷ []) 1 0 3 c1)

c1-no_fmt : get_g1_fmt 7 0x10 c1 ≡ none
unfolding get_g1_fmt get_pdt add_pdt hash_map_get hash_map_put hash_map_init hash_map_contains_key
    find has_key assign bucket_of list_of linked_list_init linked_list_prepend int_cmp int_hash_func
    int_mix malloc
c1-no_fmt = refl

add_g1_fmt-IsCatalog_example :
    Returns (add_g1_fmt 7 0x10 10 (0 ∷ []) 1 0 3 c1) λ (_, c'). IsCatalog c'
add_g1_fmt-IsCatalog_example =
    add_g1_fmt-IsCatalog 7 0x10 10 (0 ∷ []) 1 0 3 c1 add_pdt-IsCatalog_example.0 (omega arith)
      (omega arith) (omega arith) (omega arith) (omega arith) c1-no_fmt

pub kept {ℓ} :
    {A : Type ℓ} (r : Run (A × Catalog))
    → Returns r (λ (_, c'). IsCatalog c')
    → IsCatalog (state_of r)
kept r (_, run, is) = rw run is

c2-IsCatalog : IsCatalog c2
c2-IsCatalog = kept (add_g1_fmt 7 0x10 10 (0 ∷ []) 1 0 3 c1) add_g1_fmt-IsCatalog_example

-- With a token of topic 1.
abbrev pub c3 : Catalog
c3 = state_of (add_g1_token 7 0x10 1 0 0 2 c2)

held_in : ℕ → Option Pdt → ℕ
held_in t none = 0
held_in t (some p) = held p t

c2-Room : (p : Pdt) → get_pdt 7 c2 ≡ some p → Room c2 p 1
unfolding held_in get_g1_fmt get_pdt get_attr refs held uses add_pdt add_g1_fmt add_g1_token
    link_token add_pdt_attr hold_attr add_held_attr add_attr add_g1_token_internal insert_token
    hash_map_get hash_map_put hash_map_init hash_map_contains_key find has_key assign bucket_of
    list_of linked_list_init linked_list_prepend int_cmp int_hash_func int_mix malloc memcpy
c2-Room p h =
    let e : held p 1 ≡ 0 = ap (held_in 1) (sym h) in
    record { in_attrs = omega arith; in_pdt = omega (arith, e) }

add_g1_token-IsCatalog_example : Returns (add_g1_token 7 0x10 1 0 0 2 c2) λ (_, c'). IsCatalog c'
add_g1_token-IsCatalog_example =
    add_g1_token-IsCatalog 7 0x10 1 0 0 2 c2 c2-IsCatalog (omega arith) (omega arith) (omega arith)
      (omega arith) c2-Room

pub c3-IsCatalog : IsCatalog c3
c3-IsCatalog = kept (add_g1_token 7 0x10 1 0 0 2 c2) add_g1_token-IsCatalog_example

c3-has_token : (p : Pdt) (fmt : G1Fmt) → get_g1_fmt 7 0x10 c3 ≡ some (p, fmt) → 0 < uses 1 fmt.token
unfolding get_g1_fmt get_pdt get_attr refs held uses add_pdt add_g1_fmt add_g1_token link_token
    add_pdt_attr hold_attr add_held_attr add_attr add_g1_token_internal insert_token hash_map_get
    hash_map_put hash_map_init hash_map_contains_key find has_key assign bucket_of list_of
    linked_list_init linked_list_prepend int_cmp int_hash_func int_mix malloc memcpy
c3-has_token p fmt h = let e : 1 ≡ uses 1 fmt.token = ap (used_by 1) h in omega (arith, e)

del_g1_token-IsCatalog_example : Returns (del_g1_token 7 0x10 1 c3) IsCatalog
del_g1_token-IsCatalog_example =
    del_g1_token-IsCatalog 7 0x10 1 c3 c3-IsCatalog (omega arith) (omega arith) (omega arith)
      c3-has_token

del_g1_fmt-IsCatalog_example : Returns (del_g1_fmt 7 0x10 c3) λ c'.
    IsCatalog c'
    × (refs c'.attrs 1 + used_by 1 (get_g1_fmt 7 0x10 c3) ≡ refs c3.attrs 1)
    × (get_g1_fmt 7 0x10 c' ≡ none)
    × ((is_some (get_g1_fmt 7 0x10 c3) ≡ true) ⊎ (c' ≡ c3))
del_g1_fmt-IsCatalog_example =
    del_g1_fmt-IsCatalog 7 0x10 1 c3 c3-IsCatalog (omega arith) (omega arith) (omega arith)

del_pdt-IsCatalog_example : Returns (del_pdt 7 c3) λ c'.
    IsCatalog c'
    × (get_pdt 7 c' ≡ none)
    × (refs c'.attrs 1 + held_by 1 (get_pdt 7 c3) ≡ refs c3.attrs 1)
del_pdt-IsCatalog_example = del_pdt-IsCatalog 7 1 c3 c3-IsCatalog (omega arith) (omega arith)

abbrev pub no_pdt : Pdt
no_pdt = record {
  addr = 0;
  topic = 0;
  endian = 0;
  attr_map = hash_map_init 4;
  fmt_map = hash_map_init 4;
}

abbrev pub pdt_or : Option Pdt → Pdt
pdt_or none = no_pdt
pdt_or (some p) = p

abbrev pub p3 : Pdt
p3 = pdt_or (get_pdt 7 c3)

pub c3-product : get_pdt 7 c3 ≡ some p3
unfolding get_g1_fmt get_pdt get_attr refs held uses add_pdt add_g1_fmt add_g1_token link_token
    add_pdt_attr hold_attr add_held_attr add_attr add_g1_token_internal insert_token hash_map_get
    hash_map_put hash_map_init hash_map_contains_key find has_key assign bucket_of list_of
    linked_list_init linked_list_prepend int_cmp int_hash_func int_mix malloc memcpy
c3-product = refl
