-- ===== src/Srv.antt =====
-- The messages that the server in srv/srv_main.c sends to the edge client, each as the list of its
-- bytes; `none` where `malloc` returns `NULL` and nothing is sent.
pub mod RoundTrip
pub mod Arrays
pub mod Devices
pub mod Formats
pub mod Requests
pub mod Receive
pub mod Hello
use ece_lib.Base.{
  ℕ, ◌+◌, ◌-◌, Bool, true, false, Option, none, some, List, [], ◌∷◌, ◌++◌, if◌then◌else◌, replicate,
}
use ece_lib.Machine.{Run, ok, fault, ◌>>=◌, Memory, malloc, memcpy}
use ece_lib.Wire.{store32, htonl}
use ece_lib.Mgt.Protocol.{
  edge_status_offline, edge_status_online, edge_func_off, edge_func_on, edge_up_mode_attr,
  edge_up_mode_attr_periodic, edge_up_mode_pkt, edge_pro_hello, edge_pro_ack, edge_pro_pdt_add,
  edge_pro_pdt_del, edge_pro_g1_fmt_add, edge_pro_g1_fmt_del, edge_pro_g1_token_add,
  edge_pro_g1_token_del, edge_pro_dev_add, edge_pro_dev_del, edge_pro_pkt, edge_pro_butt,
}

-- The header and the body of a message.
abbrev pub tlv : (type len : ℕ) (body : List ℕ) → List ℕ
tlv type len body = store32 type ++ (store32 len ++ body)

-- What is sent, with the outcomes of `malloc` that are left.
abbrev pub Sent : Type 0
Sent = Option (List ℕ) × Memory

abbrev pub send : List ℕ → Memory → Sent
send msg mem = let (got, mem') = malloc mem in (if got then some msg else none, mem')

unfoldable pub srv_add_pdt : (topic endian : ℕ) → Memory → Sent
srv_add_pdt topic endian mem = send (tlv edge_pro_pdt_add 8 (htonl topic ++ htonl endian)) mem

unfoldable pub srv_del_pdt : (topic : ℕ) → Memory → Sent
srv_del_pdt topic mem = send (tlv edge_pro_pdt_del 4 (htonl topic)) mem

-- The address is copied into an array of 64 bytes, without a check.
unfoldable pub srv_add_dev : (addr : List ℕ) (addr_len topic link_type port : ℕ) → Memory → Run Sent
srv_add_dev addr addr_len topic link_type port mem =
    let (got, mem') = malloc mem in
    if got
    then (do
      field ← memcpy (replicate 64 0) 0 addr addr_len
      ok (
        some (
            tlv edge_pro_dev_add 80
              (field ++ (htonl addr_len ++ (htonl link_type ++ (htonl port ++ htonl topic))))),
        mem',
      ))
    else ok (none, mem')

unfoldable pub srv_del_dev : (addr : List ℕ) (addr_len link_type : ℕ) → Memory → Run Sent
srv_del_dev addr addr_len link_type mem =
    let (got, mem') = malloc mem in
    if got
    then (do
      field ← memcpy (replicate 64 0) 0 addr addr_len
      ok (some (tlv edge_pro_dev_del 72 (field ++ (htonl addr_len ++ htonl link_type))), mem'))
    else ok (none, mem')

unfoldable pub srv_add_g1_fmt :
    (topic key size : ℕ) (pkt : List ℕ) (pkt_len offset attr_len : ℕ) → Memory → Run Sent
srv_add_g1_fmt topic key size pkt pkt_len offset attr_len mem =
    let (got, mem') = malloc mem in
    if got
    then (do
      field ← memcpy (replicate 64 0) 0 pkt pkt_len
      ok (
        some (
            tlv edge_pro_g1_fmt_add 88 (
              field
              ++ (htonl pkt_len
                  ++ (htonl topic
                      ++ (htonl key ++ (htonl size ++ (htonl offset ++ htonl attr_len))))))),
        mem',
      ))
    else ok (none, mem')

unfoldable pub srv_del_g1_fmt : (topic key : ℕ) → Memory → Sent
srv_del_g1_fmt topic key mem = send (tlv edge_pro_g1_fmt_del 8 (htonl topic ++ htonl key)) mem

unfoldable pub srv_add_g1_token : (topic key token_topic type offset len : ℕ) → Memory → Sent
srv_add_g1_token topic key token_topic type offset len mem =
    send
      (tlv edge_pro_g1_token_add 24 (
        htonl topic
        ++ (htonl key ++ (htonl token_topic ++ (htonl type ++ (htonl offset ++ htonl len))))))
      mem

unfoldable pub srv_del_g1_token : (topic key token_topic : ℕ) → Memory → Sent
srv_del_g1_token topic key token_topic mem =
    send (tlv edge_pro_g1_token_del 12 (htonl topic ++ (htonl key ++ htonl token_topic))) mem
