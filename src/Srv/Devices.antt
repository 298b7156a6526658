-- ===== src/Srv/Devices.antt =====
-- The messages of srv/srv_main.c about devices, and `mgt_rcv_msg` of src/mgt.c.
use ece_lib.Base.{
  ℕ, zero, suc, ◌+◌, ◌^◌, ◌<◌, ◌≤◌, ◌≡◌, refl, sym, ◌∙◌, ap, true, false, some, List, [], ◌∷◌, ◌++◌,
  arith, length, length-append, take, ltb, Bool-cases, Option-cases, inl, inr, ◌==◌, ◌||◌,
}
use ece_lib.Machine.{ok, ◌>>=◌, Memory, malloc, Returns}
use ece_lib.Wire.{ntohl_at, read_be, htonl}
use ece_lib.Pdt.{get_pdt}
use ece_lib.Dev.{Edge, hex_type, oid_loop, get_dev_oid, add_dev, get_dev, del_dev}
use ece_lib.Mgt.{Gateway, with_edge, dev_add, dev_del, command_of, execute}
use ece_lib.Srv.{tlv, srv_add_dev, srv_del_dev}
use ece_lib.Md5.{hex_byte}
use ece_lib.Srv.RoundTrip.{SendsFor, be_word}
use ece_lib.Srv.Arrays.{memcpy-Field, ntohl_behind, rcv_tlv, Asks-same}

-- The bytes that are read are those in front.
oid_loop-take : (n : ℕ) (tmp addr : List ℕ) → oid_loop n tmp addr ≡ oid_loop n tmp (take n addr)
unfolding oid_loop
oid_loop-take zero tmp addr = refl
oid_loop-take (suc n) tmp [] = refl
oid_loop-take (suc n) tmp (b ∷ addr) = rw (oid_loop-take n (tmp ++ hex_byte b) addr) refl

-- A device is found, added and deleted by the bytes of its address alone.
get_dev_oid_front :
    (type : ℕ) (addr addr' : List ℕ) (n : ℕ)
    → take n addr ≡ take n addr'
    → (mem : Memory) → get_dev_oid type addr n mem ≡ get_dev_oid type addr' n mem
unfolding get_dev_oid
get_dev_oid_front type addr addr' n e mem =
    let same : oid_loop n (hex_type type) addr ≡ oid_loop n (hex_type type) addr' =
      oid_loop-take n (hex_type type) addr
      ∙ (ap (oid_loop n (hex_type type)) e ∙ sym (oid_loop-take n (hex_type type) addr')) in
    rw same refl

add_dev_front :
    (port : ℕ) (addr addr' : List ℕ) (n type topic now : ℕ) (e : Edge)
    → take n addr ≡ take n addr'
    → add_dev port addr n type topic now e ≡ add_dev port addr' n type topic now e
unfolding add_dev
add_dev_front port addr addr' n type topic now e same = elim (Bool-cases (n == 0 || topic == 0)) [
  | inl refused ↦ rw refused refl
  | inr wanted ↦ elim (Option-cases (get_pdt topic e.catalog)) [
    | inl absent ↦ rw (add_dev, wanted, absent) refl
    | inr (p, found) ↦
        rw (add_dev, wanted, found, get_dev_oid_front type addr addr' n same e.catalog.mem) refl
  ]
]

del_dev_front :
    (addr addr' : List ℕ) (n type now : ℕ) (g : Gateway)
    → take n addr ≡ take n addr'
    → execute (dev_del type addr n) now g ≡ execute (dev_del type addr' n) now g
unfolding execute del_dev get_dev
del_dev_front addr addr' n type now g e =
    rw (get_dev_oid_front type addr addr' n e g.edge.catalog.mem) refl

-- Where memory is there, the address can be read and fits in 64 bytes, and the other arguments
-- have 32 bits, `srv_add_dev` sends a message, and handling it is `add_dev` with the same
-- arguments.
pub rcv-srv_add_dev :
    (addr : List ℕ) (addr_len topic link_type port : ℕ) (mem : Memory)
    → addr_len ≤ length addr
    → addr_len ≤ 64
    → topic < 2 ^ 32
    → link_type < 2 ^ 32
    → port < 2 ^ 32
    → (malloc mem).0 ≡ true
    → Returns
        (srv_add_dev addr addr_len topic link_type port mem)
        λ sent. SendsFor sent mem (dev_add port addr addr_len link_type topic)
unfolding srv_add_dev SendsFor execute command_of ntohl_at read_be htonl
rcv-srv_add_dev addr addr_len topic link_type port mem there fits h k p got =
    let (field, run, f) = memcpy-Field addr addr_len there fits in
    let rest = htonl addr_len ++ (htonl link_type ++ (htonl port ++ htonl topic)) in
    let msg = tlv 8 80 (field ++ rest) in
    let w1 : ntohl_at 64 (field ++ rest) ≡ ok addr_len =
      ntohl_behind field rest 0 addr_len f.long (ap ok (be_word addr_len (omega arith))) in
    let w2 : ntohl_at 68 (field ++ rest) ≡ ok link_type =
      ntohl_behind field rest 4 link_type f.long (ap ok (be_word link_type k)) in
    let w3 : ntohl_at 72 (field ++ rest) ≡ ok port =
      ntohl_behind field rest 8 port f.long (ap ok (be_word port p)) in
    let w4 : ntohl_at 76 (field ++ rest) ≡ ok topic =
      ntohl_behind field rest 12 topic f.long (ap ok (be_word topic h)) in
    let whole : length (field ++ rest) ≡ 80 = length-append field rest ∙ ap (λ l. l + 16) f.long in
    let enough : ltb (length (field ++ rest)) 80 ≡ false = rw whole refl in
    (
      (some msg, (malloc mem).1),
      rw (srv_add_dev, got, run) refl,
      (
        msg,
        refl,
        Asks-same msg _ _
            (rcv_tlv 8 80 (field ++ rest) (dev_add port (field ++ rest) addr_len link_type topic)
              (omega arith) (rw (enough, w1, w2, w3, w4) refl))
            (λ now g.
              ap (λ r. r >>= λ (_, e). ok (with_edge g e))
                (add_dev_front port (field ++ rest) addr addr_len link_type topic now g.edge
                  (f.front rest))),
      ),
    )

-- Where memory is there, the address can be read and fits in 64 bytes, and the other arguments
-- have 32 bits, `srv_del_dev` sends a message, and handling it is `del_dev` with the same
-- arguments.
pub rcv-srv_del_dev :
    (addr : List ℕ) (addr_len link_type : ℕ) (mem : Memory)
    → addr_len ≤ length addr
    → addr_len ≤ 64
    → link_type < 2 ^ 32
    → (malloc mem).0 ≡ true
    → Returns
        (srv_del_dev addr addr_len link_type mem)
        λ sent. SendsFor sent mem (dev_del link_type addr addr_len)
unfolding srv_del_dev SendsFor command_of ntohl_at read_be htonl
rcv-srv_del_dev addr addr_len link_type mem there fits k got =
    let (field, run, f) = memcpy-Field addr addr_len there fits in
    let rest = htonl addr_len ++ htonl link_type in
    let msg = tlv 9 72 (field ++ rest) in
    let w1 : ntohl_at 64 (field ++ rest) ≡ ok addr_len =
      ntohl_behind field rest 0 addr_len f.long (ap ok (be_word addr_len (omega arith))) in
    let w2 : ntohl_at 68 (field ++ rest) ≡ ok link_type =
      ntohl_behind field rest 4 link_type f.long (ap ok (be_word link_type k)) in
    let whole : length (field ++ rest) ≡ 72 = length-append field rest ∙ ap (λ l. l + 8) f.long in
    let enough : ltb (length (field ++ rest)) 72 ≡ false = rw whole refl in
    (
      (some msg, (malloc mem).1),
      rw (srv_del_dev, got, run) refl,
      (
        msg,
        refl,
        Asks-same msg _ _
            (rcv_tlv 9 72 (field ++ rest) (dev_del link_type (field ++ rest) addr_len) (omega arith)
              (rw (enough, w1, w2) refl))
            (λ now g. del_dev_front (field ++ rest) addr addr_len link_type now g (f.front rest)),
      ),
    )
