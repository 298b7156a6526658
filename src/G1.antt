-- ===== src/G1.antt =====
-- The packet path of src/g1.c with inc/g1.h, from `edge_rcv_pkt` down to the rule engine in `Rules`.
--
-- A pointer into the packet is the list of the bytes from there on, to the end of the array in which the
-- packet lies.
pub mod Address
pub mod Status
pub mod Devices
pub mod Orphan
use ece_lib.Rules.{check_rule_engine, pdt_topic, pdt_at}
use ece_lib.Base.{
  ℕ, zero, suc, ◌+◌, ◌-◌, ◌*◌, ◌/◌, ◌%◌, ◌^◌, Bool, true, false, not, ◌&&◌, ◌||◌, Option, none,
  some, List, [], ◌∷◌, ◌++◌, ◌==◌, ltb, leb, if◌then◌else◌, length, take, drop, get_or, replicate,
  min, bit_and,
}
use ece_lib.Machine.{
  Run, ok, fault, null_pointer, use_after_free, out_of_bounds, ◌>>=◌, Memory, memcpy, u64,
}
use ece_lib.Wire.{ntohl_at, htonl}
use ece_lib.HashMap.Keys.{int_key, str_key}
use ece_lib.HashMap.{HashMap, hash_map_work}
use ece_lib.Token.{G1Token, G1Fmt}
use ece_lib.Pdt.{Pdt, Catalog}
use ece_lib.G1Fmt.{get_g1_fmt}
use ece_lib.Dev.{AttrVal, Dev, Edge, get_dev, hex_fixed}
use ece_lib.Dev.Values.{upt_dev_attr, fresh_dev, store_dev}
use ece_lib.Dev.Ageing.{report_dev_attr}
use ece_lib.Mgt.Protocol.{edge_func_on, edge_up_mode_attr, edge_up_mode_pkt}
use ece_lib.Mgt.{Control, Gateway, with_edge}
use ece_lib.Mgt.Periodic.{Out, to_app, to_device, mgt_send_pkt, with_mem}

-- `enum g1_process_status`
abbrev pub g1_stat_err_pkt : ℕ
g1_stat_err_pkt = 0

abbrev pub g1_stat_no_device : ℕ
g1_stat_no_device = 1

abbrev pub g1_stat_no_pkt_fmt : ℕ
g1_stat_no_pkt_fmt = 2

abbrev pub g1_stat_raw_pkt : ℕ
g1_stat_raw_pkt = 3

-- The lengths of the address parts, and the pointers `h2` and `h3` as offsets from `h1`; `none` is
-- the `NULL` that `memset` leaves.
pub record AddressField : Type 0 where
  pub h1_len : ℕ
  pub h2_len : ℕ
  pub h3_len : ℕ
  pub h2 : Option ℕ
  pub h3 : Option ℕ

abbrev pub h1_len_tbl : List ℕ
h1_len_tbl = 6 ∷ 8 ∷ 16 ∷ 20 ∷ 0 ∷ 4 ∷ 0 ∷ 0 ∷ []

abbrev pub h2_len_tbl : List ℕ
h2_len_tbl = 0 ∷ 2 ∷ 4 ∷ 8 ∷ []

abbrev pub h3_len_tbl : List ℕ
h3_len_tbl = 0 ∷ 2 ∷ 4 ∷ 8 ∷ []

-- `info->h3 = info->h2 + info->h2_len`, from a `NULL` too.
abbrev pub after : Option ℕ → ℕ → Option ℕ
after none n = none
after (some p) n = some (p + n)

-- The two-bit fields of the control byte are the masks and shifts written as quotients.
unfoldable pub address_field : (addr_ctrl : ℕ) → AddressField
address_field addr_ctrl =
    let l1 : ℕ = get_or h1_len_tbl (addr_ctrl % 4 + 4 * (addr_ctrl / 64 % 4)) 0 in
    let l2 : ℕ = get_or h2_len_tbl (addr_ctrl / 4 % 4) 0 in
    let l3 : ℕ = get_or h3_len_tbl (addr_ctrl / 16 % 4) 0 in
    let second : Option ℕ = if l2 == 0 then none else some l1 in
    record {
      h1_len = l1;
      h2_len = l2;
      h3_len = l3;
      h2 = second;
      h3 = if l3 == 0 then none else after second l2;
    }

abbrev pub address_len : AddressField → ℕ
address_len a = a.h1_len + a.h2_len + a.h3_len

-- The address is `none` where the control byte is refused and nothing is set.
unfoldable pub parse_address_filed : (addr_ctrl size : ℕ) → Option AddressField × ℕ
parse_address_filed addr_ctrl size =
    let type = addr_ctrl / 64 % 4 in
    if ltb 1 type || (type == 1 && not (addr_ctrl % 4 == 1))
    then (none, 0)
    else let a : AddressField = address_field addr_ctrl in
      (some a, if ltb (address_len a) size then address_len a else 0)

-- The loop over the tokens; `payload` is the memory from there on.
unfoldable pub token_loop :
    List G1Token → Dev → (payload : List ℕ) (now : ℕ) → Control → Edge → Run (Dev × Edge × List Out)
unfolding store_dev
token_loop [] d payload now ctl e = ok (d, e, [])
token_loop (token ∷ rest) d payload now ctl e = do
  (attr, d', mem) ←
      upt_dev_attr d token.topic (drop token.offset payload) token.len now e.catalog.attrs
        e.catalog.mem
  let e' : Edge = store_dev d' (record e { catalog = record e.catalog { mem = mem } })
  (d'', e'', out) ← token_loop rest d' payload now ctl e'
  let reports : List Out = elim attr [
    | none ↦ []
    | some a ↦
        if ctl.up_mode == edge_up_mode_attr
        then to_app (report_dev_attr ctl.scenerio_id d' a) ∷ []
        else []
  ]
  ok (d'', e'', reports ++ out)

-- The message: a topic of four bytes, `did`, `len` and the data. `pkt` is the memory from the pointer
-- on, of which the message is said to have `size` bytes; a token may reach beyond these. The payload
-- is logged, three characters a byte, into a buffer of 256 bytes.
unfoldable pub parse_msg :
    (expr : List ℕ → Option Bool)
    → Dev
    → (pkt : List ℕ) (size now : ℕ) → Control
    → Edge
    → Run (ℕ × Edge × List Out)
unfolding token_loop check_rule_engine pdt_topic
parse_msg expr d pkt size now ctl e = if ltb size 6 then ok (g1_stat_err_pkt, e, []) else do
  key ← ntohl_at 0 pkt
  let payload_len = min (get_or pkt 5 0) (size - 6)
  if ltb (length pkt) (6 + payload_len) || ltb 255 (3 * payload_len)
      then fault out_of_bounds
      else do
        topic ← pdt_topic d e.catalog
        elim (get_g1_fmt topic key e.catalog) [
          | none ↦ ok (g1_stat_no_pkt_fmt, e, [])
          | some (_, fmt) ↦ do
            (d', e', out) ← token_loop fmt.token d (drop 6 pkt) now ctl e
            sent ← check_rule_engine expr d' e'.catalog
            ok (0, e', out ++ sent)
        ]

-- The two loops that log `h2` and `h3` read through the pointers where the lengths are not 0.
unfoldable pub log_address : AddressField → Run (Unit {0})
log_address a =
    if not (a.h3_len == 0) then elim a.h3 [ none ↦ fault null_pointer | some _ ↦ ok tt ] else ok tt

abbrev pub behind_header : ℕ → ℕ
behind_header size = u64 (size + 2 ^ 64 - 2)

-- `pkt` is the memory from the pointer on, and `size` the length that the caller gives, from which
-- that of the header is taken off as an `unsigned long`.
unfoldable pub parse_g1_pkt :
    (expr : List ℕ → Option Bool)
    → (type : ℕ) (pkt : List ℕ) (size now : ℕ) → Control
    → Edge
    → Run (ℕ × Edge × List Out)
unfolding parse_msg parse_address_filed log_address address_field
parse_g1_pkt expr type [] size now ctl e = fault out_of_bounds
parse_g1_pkt expr type (_ ∷ []) size now ctl e = fault out_of_bounds
parse_g1_pkt expr type (msg_type ∷ addr_ctrl ∷ addr) size now ctl e =
    let left = behind_header size in
    let (field, l) = parse_address_filed addr_ctrl left in
    elim field [
      | none ↦ ok (g1_stat_err_pkt, e, [])
      | some a ↦ if l == 0 then ok (g1_stat_err_pkt, e, []) else do
        _ ← log_address a
        (found, e₁) ← get_dev type addr (address_len a) e
        elim found [
          | none ↦ ok (g1_stat_no_device, e₁, [])
          | some d ↦
              let (d', e') = fresh_dev d now e₁ in
              parse_msg expr d' (drop l addr) (left - l) now ctl e'
        ]
    ]

-- A packet that was not handled goes to the server. (`record_g1_pkt`, which writes the packet to a
-- file, is left out.)
unfoldable pub edge_dp_rcv :
    (expr : List ℕ → Option Bool) (junk : List ℕ)
    → (type port : ℕ) (pkt : List ℕ) (size now : ℕ) → Gateway
    → Run (ℕ × Gateway × List Out)
unfolding parse_g1_pkt
edge_dp_rcv expr junk type port pkt size now g = do
  (lret, e, out) ← parse_g1_pkt expr type pkt size now g.ctl g.edge
  let g' : Gateway = with_edge g e
  if lret == 0 then ok (lret, g', out) else (do
    (sent, mem) ← mgt_send_pkt junk lret port pkt size e.catalog.mem
    ok (lret, with_mem g' mem, out ++ sent))

unfoldable pub edge_rcv_pkt :
    (expr : List ℕ → Option Bool) (junk : List ℕ)
    → (type port : ℕ) (pkt : List ℕ) (size now : ℕ) → Gateway
    → Run (ℕ × Gateway × List Out)
unfolding edge_dp_rcv
edge_rcv_pkt expr junk type port pkt size now g =
    if not (g.ctl.function == edge_func_on) || (size == 0) then ok (1, g, []) else do
      (lret, g', out) ← edge_dp_rcv expr junk type port pkt size now g
      if lret == 0 && (g'.ctl.up_mode == edge_up_mode_pkt)
          then ok (g1_stat_raw_pkt, g', out)
          else ok (lret, g', out)
