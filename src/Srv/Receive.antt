-- ===== src/Srv/Receive.antt =====
-- What the server in srv/srv_main.c does with the messages of the client, `rcv_edge_msg`.
use ece_lib.Base.{
  ℕ, ◌+◌, Option, none, some, List, [], ◌∷◌, ◌++◌, ◌==◌, ltb, leb, if◌then◌else◌, length, take,
  drop, get_or, replicate,
}
use ece_lib.Machine.{Run, ok, fault, out_of_bounds, uninitialised, ◌>>=◌, Memory}
use ece_lib.Wire.{ntohl_at, load32_at, store32}
use ece_lib.Mgt.Protocol.{
  edge_status_offline, edge_pro_hello, edge_pro_ack, edge_pro_pkt, edge_pro_butt,
}
use ece_lib.Mgt.{Control}
use ece_lib.G1.{address_len, parse_address_filed}
use ece_lib.Srv.{Sent, tlv, send, srv_add_pdt, srv_add_dev, srv_add_g1_fmt, srv_add_g1_token}

-- `client_ctl`, and the bytes of `client_stat`.
pub record Server : Type 0 where
  pub client_ctl : Control
  pub client_stat : List ℕ

-- The answer to a hello; the fields that are not set are cleared.
unfoldable pub ack_msg : Control → List ℕ
ack_msg ctl =
    tlv edge_pro_ack 36
      (store32 ctl.status ++ (store32 ctl.function ++ (store32 ctl.scenerio_id ++ replicate 24 0)))

abbrev pub add_sent : Option (List ℕ) → List (List ℕ) → List (List ℕ)
add_sent none msgs = msgs
add_sent (some msg) msgs = msg ∷ msgs

-- Calls that send one message each, in order; a message for which there is no memory is not sent.
unfoldable pub send_all : List (Memory → Run Sent) → Memory → Run (List (List ℕ) × Memory)
send_all [] mem = ok ([], mem)
send_all (call ∷ calls) mem = do
  (sent, mem') ← call mem
  (msgs, mem'') ← send_all calls mem'
  ok (add_sent sent msgs, mem'')

-- The array `data`.
abbrev pub fmt_data : List ℕ
fmt_data = 1 ∷ 2 ∷ 3 ∷ 4 ∷ 5 ∷ 0 ∷ 0 ∷ 0 ∷ 0 ∷ 0 ∷ []

-- The calls for the packet of a device that the client does not know: `msg` is the whole message, the
-- packet starts at 16, its address at 18, and its length stands at 272. Where the control byte is
-- refused the pointer `h1` was never set.
unfoldable pub learn : (msg : List ℕ) → Run (List (Memory → Run Sent))
learn msg = do
  port ← ntohl_at 12 msg
  len ← ntohl_at 272 msg
  elim (parse_address_filed (get_or msg 17 0) len).0 [
    | none ↦ fault uninitialised
    | some a ↦ do
      let n = address_len a
      topic ← load32_at 18 msg
      key ← ntohl_at (18 + n) msg
      ok (
          (λ mem. ok (srv_add_pdt topic 1 mem))
          ∷ (λ mem. srv_add_dev (drop 18 msg) n topic 0 port mem)
          ∷ (λ mem. srv_add_g1_fmt topic key 10 fmt_data 5 1 3 mem)
          ∷ (λ mem. ok (srv_add_g1_token topic key 1 0 0 1 mem))
          ∷ (λ mem. ok (srv_add_g1_token topic key 2 0 1 1 mem))
          ∷ (λ mem. ok (srv_add_g1_token topic key 3 0 2 1 mem))
          ∷ [])
  ]

-- The new state, the messages sent, and the outcomes of `malloc` that are left.
unfoldable pub rcv_edge_msg :
    (msg : List ℕ) → Server → Memory → Run (Server × List (List ℕ) × Memory)
unfolding ack_msg learn send_all
rcv_edge_msg msg s mem =
    if s.client_ctl.status == edge_status_offline
    then ok (s, [], mem)
    else if ltb (length msg) 8
    then ok (s, [], mem)
    else do
      type ← load32_at 0 msg
      if leb edge_pro_butt type
          then fault out_of_bounds
          else if type == edge_pro_hello
          then (if ltb (length msg) 58
              then fault out_of_bounds
              else (let s' : Server = record s { client_stat = take 14 (drop 44 msg) } in
                  let (sent, mem') = send (ack_msg s.client_ctl) mem in
                  ok (s', add_sent sent [], mem')))
          else if type == edge_pro_pkt
          then (do calls ← learn msg; (msgs, mem') ← send_all calls mem; ok (s, msgs, mem'))
          else ok (s, [], mem)
