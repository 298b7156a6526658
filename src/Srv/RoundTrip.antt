-- ===== src/Srv/RoundTrip.antt =====
-- The messages of srv/srv_main.c without an array of bytes, and `mgt_rcv_msg` of src/mgt.c.
use ece_lib.Base.{ℕ, ◌+◌, ◌*◌, ◌/◌, ◌%◌, ◌^◌, ◌<◌, ◌≡◌, refl, ap, true, some, List, arith}
use ece_lib.Machine.{ok, ◌>>=◌, Memory, malloc}
use ece_lib.Wire.{ntohl_at, read_be, load32_at, read_le, htonl, store32}
use ece_lib.Mgt.{
  Gateway, Command, pdt_add, pdt_del, g1_fmt_del, g1_token_add, g1_token_del, command_of, execute,
  mgt_rcv_msg,
}
use ece_lib.Srv.{
  Sent, send, srv_add_pdt, srv_del_pdt, srv_del_g1_fmt, srv_add_g1_token, srv_del_g1_token,
}

-- The client that has heard from the server.
abbrev pub heard : Gateway → Gateway
heard g = record g { stat = record g.stat { timeout = 0 } }

-- Handling the message is executing the command.
unfoldable pub Asks : List ℕ → Command → Type 0
Asks msg command =
    (now : ℕ) (g : Gateway)
    → mgt_rcv_msg msg now g ≡ (do g' ← execute command now (heard g); ok (0, g'))

-- A message is sent, and asks for the command.
unfoldable pub SendsFor : Sent → Memory → Command → Type 0
SendsFor sent mem command = (msg : List ℕ) × (sent ≡ (some msg, (malloc mem).1)) × Asks msg command

-- The word that four bytes in network order spell.
pub be_word :
    (v : ℕ)
    → v < 2 ^ 32
    → (((0 * 256 + v / 2 ^ 24 % 256) * 256 + v / 2 ^ 16 % 256) * 256 + v / 2 ^ 8 % 256) * 256
        + v % 256
      ≡ v
be_word v h = omega arith

pub sends :
    (msg : List ℕ) (mem : Memory) (command : Command)
    → (malloc mem).0 ≡ true
    → Asks msg command
    → SendsFor (send msg mem) mem command
unfolding SendsFor
sends msg mem command got asks = (msg, rw got refl, asks)

-- Where memory is there and the arguments have 32 bits, `srv_add_pdt` sends a message, and
-- handling it is `add_pdt` with the same arguments.
pub rcv-srv_add_pdt :
    (topic endian : ℕ) (mem : Memory)
    → topic < 2 ^ 32
    → endian < 2 ^ 32
    → (malloc mem).0 ≡ true
    → SendsFor (srv_add_pdt topic endian mem) mem (pdt_add topic endian)
unfolding Asks srv_add_pdt mgt_rcv_msg command_of ntohl_at read_be load32_at read_le htonl store32
rcv-srv_add_pdt topic endian mem p q got = sends _ mem _ got λ now g.
    ap (λ (c : Command). execute c now (heard g) >>= λ g'. ok (0, g'))
      (λ i. pdt_add (be_word topic p i) (be_word endian q i))

-- Where memory is there and the arguments have 32 bits, `srv_del_pdt` sends a message, and
-- handling it is `del_pdt` with the same arguments.
pub rcv-srv_del_pdt :
    (topic : ℕ) (mem : Memory)
    → topic < 2 ^ 32
    → (malloc mem).0 ≡ true
    → SendsFor (srv_del_pdt topic mem) mem (pdt_del topic)
unfolding Asks srv_del_pdt mgt_rcv_msg command_of ntohl_at read_be load32_at read_le htonl store32
rcv-srv_del_pdt topic mem p got = sends _ mem _ got λ now g.
    ap (λ (c : Command). execute c now (heard g) >>= λ g'. ok (0, g'))
      (λ i. pdt_del (be_word topic p i))

-- Where memory is there and the arguments have 32 bits, `srv_del_g1_fmt` sends a message, and
-- handling it is `del_g1_fmt` with the same arguments.
pub rcv-srv_del_g1_fmt :
    (topic key : ℕ) (mem : Memory)
    → topic < 2 ^ 32
    → key < 2 ^ 32
    → (malloc mem).0 ≡ true
    → SendsFor (srv_del_g1_fmt topic key mem) mem (g1_fmt_del topic key)
unfolding Asks srv_del_g1_fmt mgt_rcv_msg command_of ntohl_at read_be load32_at read_le htonl
    store32
rcv-srv_del_g1_fmt topic key mem p q got = sends _ mem _ got λ now g.
    ap (λ (c : Command). execute c now (heard g) >>= λ g'. ok (0, g'))
      (λ i. g1_fmt_del (be_word topic p i) (be_word key q i))

-- Where memory is there and the arguments have 32 bits, `srv_add_g1_token` sends a message, and
-- handling it is `add_g1_token` with the same arguments.
pub rcv-srv_add_g1_token :
    (topic key token_topic type offset len : ℕ) (mem : Memory)
    → topic < 2 ^ 32
    → key < 2 ^ 32
    → token_topic < 2 ^ 32
    → type < 2 ^ 32
    → offset < 2 ^ 32
    → len < 2 ^ 32
    → (malloc mem).0 ≡ true
    → SendsFor
        (srv_add_g1_token topic key token_topic type offset len mem)
        mem
        (g1_token_add topic key token_topic type offset len)
unfolding Asks srv_add_g1_token mgt_rcv_msg command_of ntohl_at read_be load32_at read_le htonl
    store32
rcv-srv_add_g1_token topic key token_topic type offset len mem p q r s t u got =
    sends _ mem _ got λ now g.
      ap (λ (c : Command). execute c now (heard g) >>= λ g'. ok (0, g'))
        (λ i.
          g1_token_add (be_word topic p i) (be_word key q i) (be_word token_topic r i)
            (be_word type s i) (be_word offset t i) (be_word len u i))

-- Where memory is there and the arguments have 32 bits, `srv_del_g1_token` sends a message, and
-- handling it is `del_g1_token` with the same arguments.
pub rcv-srv_del_g1_token :
    (topic key token_topic : ℕ) (mem : Memory)
    → topic < 2 ^ 32
    → key < 2 ^ 32
    → token_topic < 2 ^ 32
    → (malloc mem).0 ≡ true
    → SendsFor (srv_del_g1_token topic key token_topic mem) mem (g1_token_del topic key token_topic)
unfolding Asks srv_del_g1_token mgt_rcv_msg command_of ntohl_at read_be load32_at read_le htonl
    store32
rcv-srv_del_g1_token topic key token_topic mem p q r got = sends _ mem _ got λ now g.
    ap (λ (c : Command). execute c now (heard g) >>= λ g'. ok (0, g'))
      (λ i. g1_token_del (be_word topic p i) (be_word key q i) (be_word token_topic r i))
