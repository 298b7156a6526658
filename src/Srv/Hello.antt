-- ===== src/Srv/Hello.antt =====
-- The hello of the client (src/mgt.c), the answer of the server (srv/srv_main.c), and what the client
-- makes of it.
use ece_lib.Base.{
  ℕ, ◌+◌, ◌*◌, ◌/◌, ◌%◌, ◌^◌, ◌<◌, ◌≡◌, refl, ◌∙◌, true, false, List, [], ◌∷◌, ◌++◌, arith, length,
  length-append, length-take, length-drop, drop-append, take_all, subst, take, drop, ltb, ◌==◌,
}
use ece_lib.Machine.{ok, Memory, malloc}
use ece_lib.Wire.{store32, load32_at, read_le}
use ece_lib.Mgt.Protocol.{edge_status_online, edge_status_offline}
use ece_lib.Mgt.{Control, Gateway, command_of, execute, mgt_rcv_msg}
use ece_lib.Mgt.Periodic.{hello_msg}
use ece_lib.Srv.Receive.{Server, ack_msg, rcv_edge_msg}

-- The client that the server has taken up.
abbrev pub taken_up : Control → Gateway → Gateway
taken_up ctl g = record g {
  ctl = record g.ctl {
    status = edge_status_online;
    function = ctl.function;
    scenerio_id = ctl.scenerio_id;
  };
  stat = record g.stat { timeout = 0 };
}

le_word :
    (v : ℕ)
    → v < 2 ^ 32
    → v % 256
        + 256 * (v / 2 ^ 8 % 256 + 256 * (v / 2 ^ 16 % 256 + 256 * (v / 2 ^ 24 % 256 + 256 * 0)))
      ≡ v
le_word v h = omega arith

-- Whatever state the client is in, the server's acknowledgement puts it online with the function
-- and the scenario of the server, both of 32 bits, and clears the count of missed answers.
pub rcv-ack_msg :
    (ctl : Control) (now : ℕ) (g : Gateway)
    → ctl.function < 2 ^ 32
    → ctl.scenerio_id < 2 ^ 32
    → mgt_rcv_msg (ack_msg ctl) now g ≡ ok (0, taken_up ctl g)
unfolding ack_msg mgt_rcv_msg command_of execute load32_at read_le store32
rcv-ack_msg ctl now g h k = λ i. ok (
  0,
  record g {
    ctl = record g.ctl {
      status = edge_status_online;
      function = le_word ctl.function h i;
      scenerio_id = le_word ctl.scenerio_id k i;
    };
    stat = record g.stat { timeout = 0 };
  },
)

-- The end of a hello: the address of the gateway, its link type, and four bytes that were not set.
abbrev pub stat_bytes : List ℕ → Gateway → List ℕ
stat_bytes junk g = take 6 g.stat.mac ++ (store32 g.stat.link_type ++ take 4 (drop 28 junk))

length-stat_bytes :
    (junk : List ℕ) (g : Gateway)
    → length junk ≡ 32
    → length g.stat.mac ≡ 6
    → length (stat_bytes junk g) ≡ 14
unfolding store32
length-stat_bytes junk g long six =
    let front =
      length-append (take 6 g.stat.mac) (store32 g.stat.link_type ++ take 4 (drop 28 junk)) in
    omega
      (arith, front, length-take 6 g.stat.mac, length-take 4 (drop 28 junk), length-drop 28 junk)

length-front : (junk : List ℕ) → length junk ≡ 32 → length (take 28 junk) ≡ 28
length-front junk long = omega (arith, length-take 28 junk)

drop_front : (junk rest : List ℕ) → length junk ≡ 32 → drop 28 (take 28 junk ++ rest) ≡ rest
drop_front junk rest long =
    subst (λ k. drop k (take 28 junk ++ rest) ≡ rest) (length-front junk long)
      (drop-append (take 28 junk) rest)

take_stat : (bytes : List ℕ) → length bytes ≡ 14 → take 14 bytes ≡ bytes
take_stat bytes long = subst (λ k. take k bytes ≡ bytes) long (take_all bytes)

-- A server that is not offline, and has memory, answers the hello of a client with the
-- acknowledgement, and then has the address and the link type of the client.
pub rcv-hello_msg :
    (junk : List ℕ) (g : Gateway) (s : Server) (mem : Memory)
    → length junk ≡ 32
    → length g.stat.mac ≡ 6
    → (s.client_ctl.status == edge_status_offline) ≡ false
    → (malloc mem).0 ≡ true
    → rcv_edge_msg (hello_msg junk g) s mem
      ≡ ok (record s { client_stat = stat_bytes junk g }, ack_msg s.client_ctl ∷ [], (malloc mem).1)
unfolding rcv_edge_msg hello_msg store32 load32_at read_le
rcv-hello_msg junk g s mem long six on got =
    let stat = stat_bytes junk g in
    let size : length (take 28 junk ++ stat) ≡ 42 =
      length-append (take 28 junk) stat
      ∙ omega (arith, length-front junk long, length-stat_bytes junk g long six) in
    let all : length (hello_msg junk g) ≡ 58 = omega (arith, size) in
    let enough : ltb (length (hello_msg junk g)) 8 ≡ false = rw all refl in
    let whole : ltb (length (hello_msg junk g)) 58 ≡ false = rw all refl in
    rw
      (
        rcv_edge_msg,
        on,
        enough,
        whole,
        got,
        drop_front junk stat long,
        take_stat stat (length-stat_bytes junk g long six),
      )
      refl
