-- ===== src/Tests/TwoFormats.antt =====
-- A second format, without a token, beside the one of `Catalogs`.
use ece_lib.Base.{◌+◌, ◌≡◌, refl, ◌<◌, [], ◌∷◌, none, some, arith, replicate}
use ece_lib.Machine.{Returns, malloc, memcpy}
use ece_lib.LinkedList.{linked_list_init, linked_list_prepend}
use ece_lib.HashMap.Keys.{int_key, int_cmp, int_mix, int_hash_func}
use ece_lib.HashMap.{
  hash_map_init, hash_map_get, hash_map_put, hash_map_contains_key, find, has_key, assign, list_of,
  bucket_of,
}
use ece_lib.HashMap.Sum.{total}
use ece_lib.Attr.{get_attr, add_attr}
use ece_lib.Attr.Refs.{refs}
use ece_lib.Token.{G1Fmt, insert_token, add_g1_token_internal}
use ece_lib.Token.Layout.{uses}
use ece_lib.Pdt.{Pdt, Catalog, get_pdt, add_pdt, add_pdt_attr, hold_attr, add_held_attr}
use ece_lib.Pdt.Refs.{held}
use ece_lib.G1Fmt.{get_g1_fmt, add_g1_token, del_g1_token, add_g1_fmt, link_token}
use ece_lib.G1Fmt.Invariant.{IsCatalog, tokens_of}
use ece_lib.G1Fmt.DelToken.{del_g1_token_unbalances}
use ece_lib.G1Fmt.Formats.{add_g1_fmt-IsCatalog}
use ece_lib.Tests.Catalogs.{c3, c3-IsCatalog, state_of, kept, pdt_or}

-- With a second format, which has no token.
c3-no_fmt : get_g1_fmt 7 0x20 c3 ≡ none
unfolding get_g1_fmt get_pdt get_attr refs held uses add_pdt add_g1_fmt add_g1_token link_token
    add_pdt_attr hold_attr add_held_attr add_attr add_g1_token_internal insert_token hash_map_get
    hash_map_put hash_map_init hash_map_contains_key find has_key assign bucket_of list_of
    linked_list_init linked_list_prepend int_cmp int_hash_func int_mix malloc memcpy
c3-no_fmt = refl

abbrev c4 : Catalog
c4 = state_of (add_g1_fmt 7 0x20 10 (0 ∷ []) 1 0 3 c3)

c4-IsCatalog : IsCatalog c4
c4-IsCatalog = kept (add_g1_fmt 7 0x20 10 (0 ∷ []) 1 0 3 c3) (
    add_g1_fmt-IsCatalog 7 0x20 10 (0 ∷ []) 1 0 3 c3 c3-IsCatalog (omega arith) (omega arith)
      (omega arith) (omega arith) (omega arith) c3-no_fmt)

abbrev p4 : Pdt
p4 = pdt_or (get_pdt 7 c4)

abbrev f4 : G1Fmt
f4 = record {
  key = 0x20;
  size = 10;
  pkt = replicate 128 0;
  pkt_len = 1;
  offset = 0;
  len = 3;
  token = [];
}

c4-format : get_g1_fmt 7 0x20 c4 ≡ some (p4, f4)
unfolding get_g1_fmt get_pdt get_attr refs held uses add_pdt add_g1_fmt add_g1_token link_token
    add_pdt_attr hold_attr add_held_attr add_attr add_g1_token_internal insert_token hash_map_get
    hash_map_put hash_map_init hash_map_contains_key find has_key assign bucket_of list_of
    linked_list_init linked_list_prepend int_cmp int_hash_func int_mix malloc memcpy
c4-format = refl

f4-unused : uses 1 f4.token ≡ 0
unfolding uses
f4-unused = refl

p4-used : 0 < tokens_of 1 p4
unfolding tokens_of total get_g1_fmt get_pdt get_attr refs held uses add_pdt add_g1_fmt add_g1_token
    link_token add_pdt_attr hold_attr add_held_attr add_attr add_g1_token_internal insert_token
    hash_map_get hash_map_put hash_map_init hash_map_contains_key find has_key assign bucket_of
    list_of linked_list_init linked_list_prepend int_cmp int_hash_func int_mix malloc memcpy
p4-used = omega arith

del_g1_token_unbalances_example : Returns (del_g1_token 7 0x20 1 c4) λ c'.
    (refs c'.attrs 1 + 1 ≡ refs c4.attrs 1)
    × ((q : Pdt) × (get_g1_fmt 7 0x20 c' ≡ some (q, f4)))
    × ¬ IsCatalog c'
del_g1_token_unbalances_example =
    del_g1_token_unbalances 7 0x20 1 c4 c4-IsCatalog (omega arith) (omega arith) (omega arith) p4 f4
      c4-format (omega arith) (omega arith) f4-unused p4-used
