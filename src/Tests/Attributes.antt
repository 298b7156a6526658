-- ===== src/Tests/Attributes.antt =====
-- The attributes of the catalogue of `Catalogs`, and its product.
use ece_lib.Base.{◌+◌, ◌<◌, ◌^◌, ◌-◌, [], arith, min}
use ece_lib.Machine.{Returns, malloc, memcpy}
use ece_lib.LinkedList.{linked_list_init, linked_list_prepend}
use ece_lib.HashMap.Keys.{int_key, int_cmp, int_mix, int_hash_func}
use ece_lib.HashMap.{
  hash_map_init, hash_map_get, hash_map_put, hash_map_contains_key, find, has_key, assign, list_of,
  bucket_of,
}
use ece_lib.Attr.{get_attr, add_attr}
use ece_lib.Attr.Refs.{refs, Counts}
use ece_lib.Token.{insert_token, add_g1_token_internal}
use ece_lib.Token.Layout.{uses}
use ece_lib.Pdt.{get_pdt, add_pdt, add_pdt_attr, del_pdt_attr, hold_attr, add_held_attr}
use ece_lib.Pdt.Refs.{held, Holds}
use ece_lib.Pdt.AddDel.{AddedBoth, add_pdt_attr-AddedBoth, del_pdt_attr-Holds}
use ece_lib.G1Fmt.{get_g1_fmt, add_g1_token, add_g1_fmt, link_token}
use ece_lib.G1Fmt.Invariant.{IsPdt}
use ece_lib.Tests.Catalogs.{c3, c3-IsCatalog, p3, c3-product}

c3-refs : refs c3.attrs 1 + 1 < 2 ^ 64
unfolding get_g1_fmt get_pdt get_attr refs held uses add_pdt add_g1_fmt add_g1_token link_token
    add_pdt_attr hold_attr add_held_attr add_attr add_g1_token_internal insert_token hash_map_get
    hash_map_put hash_map_init hash_map_contains_key find has_key assign bucket_of list_of
    linked_list_init linked_list_prepend int_cmp int_hash_func int_mix malloc memcpy
c3-refs = omega arith

p3-IsPdt : IsPdt 7 p3
p3-IsPdt = rw c3-product at (c3-IsCatalog.each 7 (omega arith))

p3-held : held p3 1 + 1 < 2 ^ 64
unfolding get_g1_fmt get_pdt get_attr refs held uses add_pdt add_g1_fmt add_g1_token link_token
    add_pdt_attr hold_attr add_held_attr add_attr add_g1_token_internal insert_token hash_map_get
    hash_map_put hash_map_init hash_map_contains_key find has_key assign bucket_of list_of
    linked_list_init linked_list_prepend int_cmp int_hash_func int_mix malloc memcpy
p3-held = omega arith

add_pdt_attr-AddedBoth_example :
    Returns
      (add_pdt_attr p3 1 0 2 c3.attrs [])
      (AddedBoth p3 p3-IsPdt.holds 1 (omega arith) c3.attrs c3-IsCatalog.attrs)
add_pdt_attr-AddedBoth_example =
    add_pdt_attr-AddedBoth p3 p3-IsPdt.holds 1 (omega arith) c3.attrs c3-IsCatalog.attrs 0 2 []
      p3-held c3-refs

del_pdt_attr-Holds_example : Returns (del_pdt_attr p3 1 c3.attrs) λ (p', attrs').
    Holds p3 1 (held p3 1 - 1) p' × Counts c3.attrs 1 (refs c3.attrs 1 - min 1 (held p3 1)) attrs'
del_pdt_attr-Holds_example =
    del_pdt_attr-Holds p3 p3-IsPdt.holds 1 (omega arith) c3.attrs c3-IsCatalog.attrs (omega arith)
