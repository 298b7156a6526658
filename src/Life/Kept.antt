-- ===== src/Life/Kept.antt =====
-- What the devices of src/dev.c and the packets of src/g1.c do to the catalogue: they take memory, and
-- no more.
use ece_lib.Base.{
  ℕ, ◌-◌, ◌%◌, ◌^◌, ◌≡◌, refl, Bool, not, ◌||◌, ◌&&◌, Option, List, [], ◌∷◌, ltb, ◌==◌, Bool-cases,
  Option-cases, inl, inr, drop,
}
use ece_lib.Machine.{Memory, malloc, WhenOk, faults, returns, bind-WhenOk, then-WhenOk, if-WhenOk}
use ece_lib.HashMap.Keys.{int_key, str_key}
use ece_lib.HashMap.{hash_map_get, hash_map_contains_key, hash_map_remove}
use ece_lib.Attr.{removed}
use ece_lib.Pdt.{Pdt, Catalog, get_pdt}
use ece_lib.Dev.{
  with_memory, Dev, Edge, add_new_dev, add_dev, get_dev_oid, get_dev, leave_product, del_dev_attrs,
  del_dev_internal, del_dev,
}
use ece_lib.Token.{G1Token}
use ece_lib.G1Fmt.{get_g1_fmt}
use ece_lib.Mgt.{Control, Gateway}
use ece_lib.Mgt.Protocol.{edge_func_on, edge_up_mode_pkt}
use ece_lib.Mgt.Periodic.{mgt_send_pkt}
use ece_lib.Dev.Values.{store_dev, fresh_dev, upt_dev_attr}
use ece_lib.Wire.{ntohl_at}
use ece_lib.Rules.{check_rule_engine, pdt_topic}
use ece_lib.G1.{
  behind_header, edge_dp_rcv, edge_rcv_pkt, address_len, token_loop, parse_msg, parse_g1_pkt,
  parse_address_filed, log_address,
}
use ece_lib.Dev.Ageing.{age_loop, do_device_ageing}

-- The two control blocks have the same settings, whatever the status.
pub record SameSettings (a b : Control) : Type 0 where
  pub hello : b.hello_interval ≡ a.hello_interval
  pub timeout : b.timeout_num ≡ a.timeout_num
  pub mode : b.up_mode ≡ a.up_mode
  pub interval : b.up_interval ≡ a.up_interval

pub same : (a : Control) → SameSettings a a
same a = record { hello = refl; timeout = refl; mode = refl; interval = refl }

module _ (P : Catalog → Type 0)
    (free : (c : Catalog) → P c → (mem : Memory) → P (record c { mem = mem })) where
  add_new_dev-Kept :
      (p : Pdt) (oid : List ℕ) (port now : ℕ) (e : Edge)
      → P e.catalog
      → P ((add_new_dev p oid port now e).1.catalog)
  unfolding add_new_dev
  add_new_dev-Kept p oid port now e v = elim (Bool-cases (hash_map_contains_key e.devs oid)) [
    | inl there ↦ rw there v
    | inr absent ↦ elim (Bool-cases (malloc e.catalog.mem).0) [
      | inl got ↦ rw (absent, got) (free e.catalog v (malloc e.catalog.mem).1)
      | inr out ↦ rw (absent, out) (free e.catalog v (malloc e.catalog.mem).1)
    ]
  ]

  pub add_dev-Kept :
      (port : ℕ) (addr : List ℕ) (n type topic now : ℕ) (e : Edge)
      → P e.catalog
      → WhenOk (λ (_, e'). P e'.catalog) (add_dev port addr n type topic now e)
  unfolding add_dev
  add_dev-Kept port addr n type topic now e v =
      if-WhenOk (n == 0 || topic == 0) (returns v) (elim (Option-cases (get_pdt topic e.catalog)) [
        | inl absent ↦ rw absent (returns v)
        | inr (p, there) ↦ rw there (
            bind-WhenOk (get_dev_oid type addr n e.catalog.mem) λ (oid, mem). returns (
              add_new_dev-Kept p oid (port % 2 ^ 16) now (with_memory e mem)
                (free e.catalog v mem)))
      ])

  leave_product-Kept :
      (d : Dev) (e : Edge) → P e.catalog → WhenOk (λ e'. P e'.catalog) (leave_product d e)
  unfolding leave_product
  leave_product-Kept d e v = if-WhenOk _ faults (returns v)

  pub del_dev_internal-Kept :
      (d : Dev) (e : Edge) → P e.catalog → WhenOk (λ e'. P e'.catalog) (del_dev_internal d e)
  unfolding del_dev_internal
  del_dev_internal-Kept d e v = then-WhenOk (leave_product-Kept d e v) λ e' v'.
      bind-WhenOk (del_dev_attrs d.attr_map)
        λ _. bind-WhenOk (removed (hash_map_remove e.devs d.oid)) λ devs. returns v'

  get_dev-Kept :
      (type : ℕ) (addr : List ℕ) (n : ℕ) (e : Edge)
      → P e.catalog
      → WhenOk (λ (_, e'). P e'.catalog) (get_dev type addr n e)
  unfolding get_dev
  get_dev-Kept type addr n e v =
      bind-WhenOk (get_dev_oid type addr n e.catalog.mem)
        λ (oid, mem). returns (free e.catalog v mem)

  pub del_dev-Kept :
      (type : ℕ) (addr : List ℕ) (n : ℕ) (e : Edge)
      → P e.catalog
      → WhenOk (λ e'. P e'.catalog) (del_dev type addr n e)
  unfolding del_dev
  del_dev-Kept type addr n e v = if-WhenOk (n == 0) (returns v) (
      then-WhenOk (get_dev-Kept type addr n e v) λ (found, e₁) v₁. elim (Option-cases found) [
        | inl absent ↦ rw absent (returns v₁)
        | inr (d, there) ↦ rw there (del_dev_internal-Kept d e₁ v₁)
      ])

  age_loop-Kept :
      (interval now : ℕ) (oids : List (List ℕ)) (e : Edge)
      → P e.catalog
      → WhenOk (λ e'. P e'.catalog) (age_loop interval now oids e)
  unfolding age_loop
  age_loop-Kept interval now [] e v = returns v
  age_loop-Kept interval now (oid ∷ rest) e v = elim (Option-cases (hash_map_get e.devs oid)) [
    | inl absent ↦ rw (age_loop, absent) faults
    | inr (d, there) ↦
        rw (age_loop, there)
          (if-WhenOk (ltb interval (now - d.ts))
            (then-WhenOk (del_dev_internal-Kept d e v)
              λ e' v'. age_loop-Kept interval now rest e' v')
            (returns v))
  ]

  pub do_device_ageing-Kept :
      (interval now : ℕ) (e : Edge)
      → P e.catalog
      → WhenOk (λ e'. P e'.catalog) (do_device_ageing interval now e)
  unfolding do_device_ageing
  do_device_ageing-Kept interval now e v = if-WhenOk (e.last_ageing == 0) (returns v) (
      if-WhenOk (ltb 60 (now - e.last_ageing))
        (then-WhenOk (age_loop-Kept interval now e.ages e v) λ e' v'. returns v') (returns v))

  -- A new value takes memory.
  token_loop-Kept :
      (tokens : List G1Token) (d : Dev) (payload : List ℕ) (now : ℕ) (ctl : Control) (e : Edge)
      → P e.catalog
      → WhenOk (λ (_, e', _). P e'.catalog) (token_loop tokens d payload now ctl e)
  unfolding token_loop store_dev
  token_loop-Kept [] d payload now ctl e v = returns v
  token_loop-Kept (token ∷ rest) d payload now ctl e v =
      bind-WhenOk
        (upt_dev_attr d token.topic (drop token.offset payload) token.len now e.catalog.attrs
          e.catalog.mem)
        λ (attr, d', mem).
          then-WhenOk
            (token_loop-Kept rest d' payload now ctl
              (store_dev d' (record e { catalog = record e.catalog { mem = mem } }))
              (free e.catalog v mem))
            λ (d'', e'', out) v'. returns v'

  parse_msg-Kept :
      (expr : List ℕ → Option Bool) (d : Dev) (pkt : List ℕ) (size now : ℕ) (ctl : Control)
      (e : Edge)
      → P e.catalog
      → WhenOk (λ (_, e', _). P e'.catalog) (parse_msg expr d pkt size now ctl e)
  unfolding parse_msg
  parse_msg-Kept expr d pkt size now ctl e v = if-WhenOk (ltb size 6) (returns v) (
      bind-WhenOk (ntohl_at 0 pkt) λ key. if-WhenOk _ faults (
        bind-WhenOk (pdt_topic d e.catalog) λ topic.
          elim (Option-cases (get_g1_fmt topic key e.catalog)) [
            | inl absent ↦ rw absent (returns v)
            | inr ((p, fmt), there) ↦ rw there (
                then-WhenOk (token_loop-Kept fmt.token d (drop 6 pkt) now ctl e v)
                  λ (d', e', out) v'.
                    bind-WhenOk (check_rule_engine expr d' e'.catalog) λ sent. returns v')
          ]))

  parse_g1_pkt-Kept :
      (expr : List ℕ → Option Bool) (type : ℕ) (pkt : List ℕ) (size now : ℕ) (ctl : Control)
      (e : Edge)
      → P e.catalog
      → WhenOk (λ (_, e', _). P e'.catalog) (parse_g1_pkt expr type pkt size now ctl e)
  unfolding parse_g1_pkt fresh_dev store_dev
  parse_g1_pkt-Kept expr type [] size now ctl e v = faults
  parse_g1_pkt-Kept expr type (_ ∷ []) size now ctl e v = faults
  parse_g1_pkt-Kept expr type (msg_type ∷ addr_ctrl ∷ addr) size now ctl e v =
      elim (Option-cases (parse_address_filed addr_ctrl (behind_header size)).0) [
        | inl refused ↦ rw (parse_g1_pkt, refused) (returns v)
        | inr (a, accepted) ↦
            rw (parse_g1_pkt, accepted)
              (if-WhenOk ((parse_address_filed addr_ctrl (behind_header size)).1 == 0) (returns v) (
                bind-WhenOk (log_address a) λ _.
                  then-WhenOk (get_dev-Kept type addr (address_len a) e v) λ (found, e₁) v₁.
                    elim (Option-cases found) [
                      | inl absent ↦ rw absent (returns v₁)
                      | inr (d, there) ↦ rw there (
                          let (d', e') = fresh_dev d now e₁ in
                          let l = (parse_address_filed addr_ctrl (behind_header size)).1 in
                          parse_msg-Kept expr d' (drop l addr) (behind_header size - l) now ctl e'
                            v₁)
                    ]))
      ]

  edge_dp_rcv-Kept :
      (expr : List ℕ → Option Bool) (junk : List ℕ) (type port : ℕ) (pkt : List ℕ) (size now : ℕ)
      (g : Gateway)
      → P g.edge.catalog
      → WhenOk
          (λ (_, g', _). P g'.edge.catalog × SameSettings g.ctl g'.ctl)
          (edge_dp_rcv expr junk type port pkt size now g)
  unfolding edge_dp_rcv
  edge_dp_rcv-Kept expr junk type port pkt size now g v =
      then-WhenOk (parse_g1_pkt-Kept expr type pkt size now g.ctl g.edge v) λ (lret, e, out) v'.
        if-WhenOk (lret == 0) (returns (v', same g.ctl)) (
          bind-WhenOk (mgt_send_pkt junk lret port pkt size e.catalog.mem)
            λ (sent, mem). returns (free e.catalog v' mem, same g.ctl))

  -- A packet of a device takes memory, and changes no setting.
  pub edge_rcv_pkt-Kept :
      (expr : List ℕ → Option Bool) (junk : List ℕ) (type port : ℕ) (pkt : List ℕ) (size now : ℕ)
      (g : Gateway)
      → P g.edge.catalog
      → WhenOk
          (λ (_, g', _). P g'.edge.catalog × SameSettings g.ctl g'.ctl)
          (edge_rcv_pkt expr junk type port pkt size now g)
  unfolding edge_rcv_pkt
  edge_rcv_pkt-Kept expr junk type port pkt size now g v =
      if-WhenOk (not (g.ctl.function == edge_func_on) || (size == 0)) (returns (v, same g.ctl)) (
        then-WhenOk (edge_dp_rcv-Kept expr junk type port pkt size now g v) λ (lret, g', out) kept.
          if-WhenOk (lret == 0 && (g'.ctl.up_mode == edge_up_mode_pkt)) (returns kept)
            (returns kept))
