-- ===== src/Srv/Formats.antt =====
-- The message of srv/srv_main.c about a packet format, and `mgt_rcv_msg` of src/mgt.c.
use ece_lib.Base.{
  ℕ, ◌+◌, ◌^◌, ◌<◌, ◌≤◌, ◌≡◌, refl, ◌∙◌, ap, true, false, some, List, ◌++◌, arith, length,
  length-append, take, ltb, le→leb, replicate, Bool-cases, Option-cases, inl, inr,
}
use ece_lib.Machine.{ok, ◌>>=◌, Memory, malloc, Returns, memcpy}
use ece_lib.Wire.{ntohl_at, read_be, htonl}
use ece_lib.G1Fmt.{add_g1_fmt}
use ece_lib.Pdt.{Catalog, get_pdt}
use ece_lib.Mgt.{with_catalog, g1_fmt_add, command_of, execute}
use ece_lib.Srv.{tlv, srv_add_g1_fmt}
use ece_lib.Srv.RoundTrip.{SendsFor, be_word}
use ece_lib.Srv.Arrays.{memcpy-Field, ntohl_behind, rcv_tlv, Asks-same}

memcpy_front :
    (to a b : List ℕ) (at n : ℕ)
    → n ≤ length a
    → n ≤ length b
    → take n a ≡ take n b
    → memcpy to at a n ≡ memcpy to at b n
unfolding memcpy
memcpy_front to a b at n p q e = rw (le→leb n (length a) p, le→leb n (length b) q, e) refl

add_g1_fmt_front :
    (topic key size : ℕ) (a b : List ℕ) (n offset len : ℕ) (c : Catalog)
    → n ≤ length a
    → n ≤ length b
    → take n a ≡ take n b
    → add_g1_fmt topic key size a n offset len c ≡ add_g1_fmt topic key size b n offset len c
unfolding add_g1_fmt
add_g1_fmt_front topic key size a b n offset len c p q e = elim (Option-cases (get_pdt topic c)) [
  | inl absent ↦ rw (add_g1_fmt, absent) refl
  | inr (p', found) ↦ elim (Bool-cases (malloc c.mem).0) [
    | inl got ↦ rw (add_g1_fmt, found, got, memcpy_front (replicate 128 0) a b 0 n p q e) refl
    | inr out ↦ rw (add_g1_fmt, found, out) refl
  ]
]

-- Where memory is there, the packet can be read and fits in 64 bytes, and the other arguments have
-- 32 bits, `srv_add_g1_fmt` sends a message, and handling it is `add_g1_fmt` with the same
-- arguments.
pub rcv-srv_add_g1_fmt :
    (topic key size : ℕ) (pkt : List ℕ) (pkt_len offset len : ℕ) (mem : Memory)
    → pkt_len ≤ length pkt
    → pkt_len ≤ 64
    → topic < 2 ^ 32
    → key < 2 ^ 32
    → size < 2 ^ 32
    → offset < 2 ^ 32
    → len < 2 ^ 32
    → (malloc mem).0 ≡ true
    → Returns
        (srv_add_g1_fmt topic key size pkt pkt_len offset len mem)
        λ sent. SendsFor sent mem (g1_fmt_add topic key size pkt pkt_len offset len)
unfolding srv_add_g1_fmt SendsFor execute command_of ntohl_at read_be htonl
rcv-srv_add_g1_fmt topic key size pkt pkt_len offset len mem there fits h1 h2 h3 h4 h5 got =
    let (field, run, f) = memcpy-Field pkt pkt_len there fits in
    let rest =
      htonl pkt_len
      ++ (htonl topic ++ (htonl key ++ (htonl size ++ (htonl offset ++ htonl len)))) in
    let body = field ++ rest in
    let w0 : ntohl_at 64 body ≡ ok pkt_len =
      ntohl_behind field rest 0 pkt_len f.long (ap ok (be_word pkt_len (omega arith))) in
    let w1 : ntohl_at 68 body ≡ ok topic =
      ntohl_behind field rest 4 topic f.long (ap ok (be_word topic h1)) in
    let w2 : ntohl_at 72 body ≡ ok key =
      ntohl_behind field rest 8 key f.long (ap ok (be_word key h2)) in
    let w3 : ntohl_at 76 body ≡ ok size =
      ntohl_behind field rest 12 size f.long (ap ok (be_word size h3)) in
    let w4 : ntohl_at 80 body ≡ ok offset =
      ntohl_behind field rest 16 offset f.long (ap ok (be_word offset h4)) in
    let w5 : ntohl_at 84 body ≡ ok len =
      ntohl_behind field rest 20 len f.long (ap ok (be_word len h5)) in
    let whole : length body ≡ 88 = length-append field rest ∙ ap (λ l. l + 24) f.long in
    let enough : ltb (length body) 88 ≡ false = rw whole refl in
    let msg = tlv 4 88 body in
    (
      (some msg, (malloc mem).1),
      rw (srv_add_g1_fmt, got, run) refl,
      (
        msg,
        refl,
        Asks-same msg _ _
            (rcv_tlv 4 88 body (g1_fmt_add topic key size body pkt_len offset len) (omega arith)
              (rw (enough, w0, w1, w2, w3, w4, w5) refl))
            (λ now g.
              ap (λ r. r >>= λ (_, c). ok (with_catalog g c))
                (add_g1_fmt_front topic key size body pkt pkt_len offset len g.edge.catalog
                  (omega (arith, whole)) there (f.front rest))),
      ),
    )
