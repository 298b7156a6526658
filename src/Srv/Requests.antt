-- ===== src/Srv/Requests.antt =====
-- The calls of srv/srv_main.c that send a message, as data, and `mgt_rcv_msg` of src/mgt.c.
use ece_lib.Base.{ℕ, ◌^◌, ◌<◌, ◌≤◌, ◌≡◌, refl, true, List, length}
use ece_lib.Machine.{Run, ok, Memory, malloc, Returns}
use ece_lib.Mgt.{
  Command, pdt_add, pdt_del, g1_fmt_add, g1_fmt_del, g1_token_add, g1_token_del, dev_add, dev_del,
}
use ece_lib.Srv.{
  Sent, srv_add_pdt, srv_del_pdt, srv_add_dev, srv_del_dev, srv_add_g1_fmt, srv_del_g1_fmt,
  srv_add_g1_token, srv_del_g1_token,
}
use ece_lib.Srv.RoundTrip.{
  SendsFor, rcv-srv_add_pdt, rcv-srv_del_pdt, rcv-srv_del_g1_fmt, rcv-srv_add_g1_token,
  rcv-srv_del_g1_token,
}
use ece_lib.Srv.Devices.{rcv-srv_add_dev, rcv-srv_del_dev}
use ece_lib.Srv.Formats.{rcv-srv_add_g1_fmt}

-- A call with its arguments.
pub data Request : Type 0 where
  wants_pdt : (topic endian : ℕ) → Request
  drops_pdt : (topic : ℕ) → Request
  wants_dev : (addr : List ℕ) (addr_len topic link_type port : ℕ) → Request
  drops_dev : (addr : List ℕ) (addr_len link_type : ℕ) → Request
  wants_fmt : (topic key size : ℕ) (pkt : List ℕ) (pkt_len offset attr_len : ℕ) → Request
  drops_fmt : (topic key : ℕ) → Request
  wants_token : (topic key token_topic type offset len : ℕ) → Request
  drops_token : (topic key token_topic : ℕ) → Request

unfoldable pub srv_request : Request → Memory → Run Sent
unfolding srv_add_pdt srv_del_pdt srv_add_dev srv_del_dev srv_add_g1_fmt srv_del_g1_fmt
    srv_add_g1_token srv_del_g1_token
srv_request (wants_pdt topic endian) mem = ok (srv_add_pdt topic endian mem)
srv_request (drops_pdt topic) mem = ok (srv_del_pdt topic mem)
srv_request (wants_dev addr n topic type port) mem = srv_add_dev addr n topic type port mem
srv_request (drops_dev addr n type) mem = srv_del_dev addr n type mem
srv_request (wants_fmt topic key size pkt n offset len) mem =
    srv_add_g1_fmt topic key size pkt n offset len mem
srv_request (drops_fmt topic key) mem = ok (srv_del_g1_fmt topic key mem)
srv_request (wants_token topic key token_topic type offset len) mem =
    ok (srv_add_g1_token topic key token_topic type offset len mem)
srv_request (drops_token topic key token_topic) mem =
    ok (srv_del_g1_token topic key token_topic mem)

-- The function call of the client with the same arguments.
unfoldable pub command_for : Request → Command
command_for (wants_pdt topic endian) = pdt_add topic endian
command_for (drops_pdt topic) = pdt_del topic
command_for (wants_dev addr n topic type port) = dev_add port addr n type topic
command_for (drops_dev addr n type) = dev_del type addr n
command_for (wants_fmt topic key size pkt n offset len) = g1_fmt_add topic key size pkt n offset len
command_for (drops_fmt topic key) = g1_fmt_del topic key
command_for (wants_token topic key token_topic type offset len) =
    g1_token_add topic key token_topic type offset len
command_for (drops_token topic key token_topic) = g1_token_del topic key token_topic

abbrev Word : ℕ → Type 0
Word n = n < 2 ^ 32

-- An array can be read over its length, and fits in the 64 bytes of the message.
abbrev Fits : List ℕ → ℕ → Type 0
Fits bytes n = (n ≤ length bytes) × (n ≤ 64)

-- The numbers have 32 bits, and an array fits in the message.
unfoldable pub IsSendable : Request → Type 0
IsSendable (wants_pdt topic endian) = Word topic × Word endian
IsSendable (drops_pdt topic) = Word topic
IsSendable (wants_dev addr n topic type port) = Fits addr n × Word topic × Word type × Word port
IsSendable (drops_dev addr n type) = Fits addr n × Word type
IsSendable (wants_fmt topic key size pkt n offset len) =
    Fits pkt n × Word topic × Word key × Word size × Word offset × Word len
IsSendable (drops_fmt topic key) = Word topic × Word key
IsSendable (wants_token topic key token_topic type offset len) =
    Word topic × Word key × Word token_topic × Word type × Word offset × Word len
IsSendable (drops_token topic key token_topic) = Word topic × Word key × Word token_topic

-- Whatever the server is asked to send: where memory is there, the numbers have 32 bits and an array
-- fits in its field of 64 bytes, a message is sent, and handling it is calling the client's function
-- of that name with the same arguments.
pub rcv-srv_request :
    (r : Request) (mem : Memory)
    → IsSendable r
    → (malloc mem).0 ≡ true
    → Returns (srv_request r mem) λ sent. SendsFor sent mem (command_for r)
unfolding srv_request command_for IsSendable
rcv-srv_request (wants_pdt topic endian) mem (p, q) got =
    (srv_add_pdt topic endian mem, refl, rcv-srv_add_pdt topic endian mem p q got)
rcv-srv_request (drops_pdt topic) mem p got =
    (srv_del_pdt topic mem, refl, rcv-srv_del_pdt topic mem p got)
rcv-srv_request (wants_dev addr n topic type port) mem ((there, fits), p, q, r) got =
    rcv-srv_add_dev addr n topic type port mem there fits p q r got
rcv-srv_request (drops_dev addr n type) mem ((there, fits), p) got =
    rcv-srv_del_dev addr n type mem there fits p got
rcv-srv_request (wants_fmt topic key size pkt n offset len) mem ((there, fits), p, q, r, s, t) got =
    rcv-srv_add_g1_fmt topic key size pkt n offset len mem there fits p q r s t got
rcv-srv_request (drops_fmt topic key) mem (p, q) got =
    (srv_del_g1_fmt topic key mem, refl, rcv-srv_del_g1_fmt topic key mem p q got)
rcv-srv_request (wants_token topic key token_topic type offset len) mem (p, q, r, s, t, u) got = (
  srv_add_g1_token topic key token_topic type offset len mem,
  refl,
  rcv-srv_add_g1_token topic key token_topic type offset len mem p q r s t u got,
)
rcv-srv_request (drops_token topic key token_topic) mem (p, q, r) got = (
  srv_del_g1_token topic key token_topic mem,
  refl,
  rcv-srv_del_g1_token topic key token_topic mem p q r got,
)
