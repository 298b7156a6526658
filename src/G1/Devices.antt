-- ===== src/G1/Devices.antt =====
-- What the packets of src/g1.c leave of the devices.
use ece_lib.Base.{
  ℕ, ◌-◌, ◌≡◌, sym, subst, Bool, not, ◌||◌, ◌&&◌, Option, some, List, [], ◌∷◌, ltb, ◌==◌, All,
  Option-cases, inl, inr, drop, arith,
}
use ece_lib.Machine.{WhenOk, faults, returns, bind-WhenOk, then-WhenOk, if-WhenOk}
use ece_lib.HashMap.Keys.{int_key, str_key, IsOid}
use ece_lib.HashMap.{hash_map_get, hash_map_put}
use ece_lib.HashMap.Each.{IsPaired, get-IsPaired}
use ece_lib.Token.{G1Token, G1Fmt}
use ece_lib.Pdt.{Pdt, Catalog, get_pdt}
use ece_lib.G1Fmt.{get_g1_fmt}
use ece_lib.G1Fmt.Invariant.{IsCatalog, IsPdt, IsFmt, IsTopic, ArePdts, AreFmts}
use ece_lib.G1Fmt.AddToken.{mem-IsCatalog}
use ece_lib.Dev.{Dev, Edge}
use ece_lib.Dev.Values.{store_dev, fresh_dev}
use ece_lib.Dev.Alive.{IsEdge}
use ece_lib.Dev.Kept.{fresh_dev-IsEdge}
use ece_lib.Dev.Deleted.{get_dev-IsKnown}
use ece_lib.Dev.Updated.{IsListed, put_again, upt_dev_attr-IsDev}
use ece_lib.Wire.{ntohl_at}
use ece_lib.Rules.{check_rule_engine, pdt_topic}
use ece_lib.Mgt.{Control, Gateway}
use ece_lib.Mgt.Protocol.{edge_func_on, edge_up_mode_pkt}
use ece_lib.Mgt.Periodic.{mgt_send_pkt}
use ece_lib.G1.{
  behind_header, edge_dp_rcv, edge_rcv_pkt, address_len, token_loop, parse_msg, parse_g1_pkt,
  parse_address_filed, log_address,
}

-- The tokens of a format that is found have topics that a map can hold.
found-All :
    (topic key : ℕ) (c : Catalog) (p : Pdt) (fmt : G1Fmt)
    → IsCatalog c
    → get_g1_fmt topic key c ≡ some (p, fmt)
    → All IsTopic fmt.token
unfolding get_g1_fmt get_pdt
found-All topic key c p fmt v found = elim (Option-cases (get_pdt topic c)) [
  | inl absent ↦ absurd (ground (arith, found, absent))
  | inr (q, there) ↦ elim (Option-cases (hash_map_get q.fmt_map key)) [
    | inl absent ↦ absurd (ground (arith, found, there, absent))
    | inr (f, has) ↦
        let paired : IsPaired IsPdt q =
          get-IsPaired IsPdt c.pdts topic q v.pdts
            (λ j y h at. subst (λ o. ArePdts o j) at (v.each j h)) there in
        let is = paired.holds in
        let is_fmt : IsPaired IsFmt f =
          get-IsPaired IsFmt q.fmt_map key f is.fmts
            (λ j y h at. subst (λ o. AreFmts o j) at (is.each j h)) has in
        subst (All IsTopic) (ground (arith, found, there, has)) is_fmt.holds.topics
  ]
]

store_dev-IsEdge :
    (oid : List ℕ) (d : Dev) (e : Edge)
    → IsEdge e
    → IsOid oid
    → IsListed e.ages oid d
    → IsEdge (store_dev d e)
unfolding store_dev
store_dev-IsEdge oid d e v ik (is, listed) =
    subst (λ k. IsEdge (record e { devs = hash_map_put e.devs k d })) (sym is.own)
      (put_again e.devs oid d e.ages v ik (is, listed))

token_loop-IsEdge :
    (oid : List ℕ) (tokens : List G1Token) (d : Dev) (payload : List ℕ) (now : ℕ) (ctl : Control)
    (e : Edge)
    → IsEdge e
    → IsOid oid
    → IsListed e.ages oid d
    → All IsTopic tokens
    → WhenOk (λ (_, e', _). IsEdge e') (token_loop tokens d payload now ctl e)
unfolding token_loop
token_loop-IsEdge oid [] d payload now ctl e v ik is all = returns v
token_loop-IsEdge oid (token ∷ rest) d payload now ctl e v ik (is, listed) (topic, all) =
    then-WhenOk
      (upt_dev_attr-IsDev oid d token.topic (drop token.offset payload) token.len now
        e.catalog.attrs e.catalog.mem topic.1 is)
      λ (attr, d', mem) is'.
        let e₁ : Edge = record e { catalog = record e.catalog { mem = mem } } in
        then-WhenOk
          (token_loop-IsEdge oid rest d' payload now ctl (store_dev d' e₁)
            (store_dev-IsEdge oid d' e₁ v ik (is', listed)) ik (is', listed) all)
          λ (d'', e'', out) v'. returns v'

parse_msg-IsEdge :
    (expr : List ℕ → Option Bool) (oid : List ℕ) (d : Dev) (pkt : List ℕ) (size now : ℕ)
    (ctl : Control) (e : Edge)
    → IsEdge e
    → IsCatalog e.catalog
    → IsOid oid
    → IsListed e.ages oid d
    → WhenOk (λ (_, e', _). IsEdge e') (parse_msg expr d pkt size now ctl e)
unfolding parse_msg
parse_msg-IsEdge expr oid d pkt size now ctl e v c ik is = if-WhenOk (ltb size 6) (returns v) (
    bind-WhenOk (ntohl_at 0 pkt) λ key. if-WhenOk _ faults (
      bind-WhenOk (pdt_topic d e.catalog) λ topic.
        elim (Option-cases (get_g1_fmt topic key e.catalog)) [
          | inl absent ↦ rw absent (returns v)
          | inr ((p, fmt), there) ↦ rw there (
              then-WhenOk
                (token_loop-IsEdge oid fmt.token d (drop 6 pkt) now ctl e v ik is
                  (found-All topic key e.catalog p fmt c there))
                λ (d', e', out) v'.
                  bind-WhenOk (check_rule_engine expr d' e'.catalog) λ sent. returns v')
        ]))

parse_g1_pkt-IsEdge :
    (expr : List ℕ → Option Bool) (type : ℕ) (pkt : List ℕ) (size now : ℕ) (ctl : Control)
    (e : Edge)
    → IsEdge e
    → IsCatalog e.catalog
    → WhenOk (λ (_, e', _). IsEdge e') (parse_g1_pkt expr type pkt size now ctl e)
unfolding parse_g1_pkt
parse_g1_pkt-IsEdge expr type [] size now ctl e v c = faults
parse_g1_pkt-IsEdge expr type (_ ∷ []) size now ctl e v c = faults
parse_g1_pkt-IsEdge expr type (msg_type ∷ addr_ctrl ∷ addr) size now ctl e v c =
    elim (Option-cases (parse_address_filed addr_ctrl (behind_header size)).0) [
      | inl refused ↦ rw (parse_g1_pkt, refused) (returns v)
      | inr (a, accepted) ↦
          rw (parse_g1_pkt, accepted)
            (if-WhenOk ((parse_address_filed addr_ctrl (behind_header size)).1 == 0) (returns v) (
              bind-WhenOk (log_address a) λ _.
                then-WhenOk
                  (get_dev-IsKnown (λ e₁. IsEdge e₁ × IsCatalog e₁.catalog) type addr
                    (address_len a) e λ mem. (v, mem-IsCatalog e.catalog c mem))
                  λ (found, e₁) (known, (v₁, c₁)). elim (Option-cases found) [
                    | inl absent ↦ rw absent (returns v₁)
                    | inr (d, there) ↦ rw there (
                        let k = known d there in
                        let l = (parse_address_filed addr_ctrl (behind_header size)).1 in
                        let (v', is, listed, kept) =
                          fresh_dev-IsEdge k.oid d now e₁ v₁ k.is k.there in
                        parse_msg-IsEdge expr k.oid (fresh_dev d now e₁).0 (drop l addr)
                          (behind_header size - l) now ctl (fresh_dev d now e₁).1 v'
                          (subst IsCatalog (sym kept) c₁) k.is (is, listed))
                  ]))
    ]

edge_dp_rcv-IsEdge :
    (expr : List ℕ → Option Bool) (junk : List ℕ) (type port : ℕ) (pkt : List ℕ) (size now : ℕ)
    (g : Gateway)
    → IsEdge g.edge
    → IsCatalog g.edge.catalog
    → WhenOk (λ (_, g', _). IsEdge g'.edge) (edge_dp_rcv expr junk type port pkt size now g)
unfolding edge_dp_rcv
edge_dp_rcv-IsEdge expr junk type port pkt size now g v c =
    then-WhenOk (parse_g1_pkt-IsEdge expr type pkt size now g.ctl g.edge v c) λ (lret, e, out) v'.
      if-WhenOk (lret == 0) (returns v')
        (bind-WhenOk (mgt_send_pkt junk lret port pkt size e.catalog.mem) λ (sent, mem). returns v')

pub edge_rcv_pkt-IsEdge :
    (expr : List ℕ → Option Bool) (junk : List ℕ) (type port : ℕ) (pkt : List ℕ) (size now : ℕ)
    (g : Gateway)
    → IsEdge g.edge
    → IsCatalog g.edge.catalog
    → WhenOk (λ (_, g', _). IsEdge g'.edge) (edge_rcv_pkt expr junk type port pkt size now g)
unfolding edge_rcv_pkt
edge_rcv_pkt-IsEdge expr junk type port pkt size now g v c =
    if-WhenOk (not (g.ctl.function == edge_func_on) || (size == 0)) (returns v) (
      then-WhenOk (edge_dp_rcv-IsEdge expr junk type port pkt size now g v c) λ (lret, g', out) v'.
        if-WhenOk (lret == 0 && (g'.ctl.up_mode == edge_up_mode_pkt)) (returns v') (returns v'))
