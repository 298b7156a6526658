-- ===== src/Tests/Packets.antt =====
-- Packets of devices that the client does not know, and the identifiers of devices.
use ece_lib.Base.{
  ℕ, ◌+◌, ◌*◌, ◌/◌, ◌≤◌, ◌≡◌, refl, ◌≢◌, List, [], ◌∷◌, arith, length, take, Option, none, Bool,
  replicate, if◌then◌else◌, ◌==◌,
}
use ece_lib.Machine.{Memory, ok, fault, out_of_bounds, null_pointer, malloc}
use ece_lib.HashMap.Keys.{str_key, IsOid}
use ece_lib.Md5.{padded, new_len}
use ece_lib.Md5.Padding.{padded-chunks}
use ece_lib.Dev.{Dev, Edge, dev_init, get_dev_oid}
use ece_lib.Dev.Oid.{get_dev_oid-IsOid, get_dev_oid_overflow}
use ece_lib.Mgt.{Gateway, mgt_init, initial_control}
use ece_lib.G1.{behind_header, address_field, parse_address_filed, parse_g1_pkt, edge_rcv_pkt}
use ece_lib.G1.Address.{Accepted, IsLaidOut, parse_address_filed-Accepted, parse_g1_pkt_null}
use ece_lib.G1.Status.{edge_rcv_pkt-refused}
use ece_lib.G1Fmt.Start.{start}

abbrev message : List ℕ
message = 97 ∷ []

padded-chunks_example :
    (length (padded message) ≡ 64 * ((new_len (length message) + 63) / 64))
    × (length (padded message) ≤ length message + 72)
    × (take (length message) (padded message) ≡ message)
padded-chunks_example = padded-chunks message

abbrev address : List ℕ
address = 0x20 ∷ 0xc7 ∷ 0xdd ∷ 0x11 ∷ 0 ∷ 0 ∷ []

get_dev_oid-IsOid_example :
    (oid : List ℕ) × IsOid oid
    × ((mem : Memory)
        → get_dev_oid 0 address 4 mem
          ≡ (if (malloc mem).0 then ok (oid, (malloc mem).1) else fault null_pointer))
get_dev_oid-IsOid_example = get_dev_oid-IsOid 0 address 4 (omega arith) (omega arith) (omega arith)

get_dev_oid_overflow_example : get_dev_oid 0 (replicate 200 1) 126 [] ≡ fault out_of_bounds
get_dev_oid_overflow_example =
    get_dev_oid_overflow 0 (replicate 200 1) 126 (omega arith) (omega arith) []

-- A short address of four bytes is accepted.
accepted : (parse_address_filed 0x41 6).1 ≢ 0
unfolding parse_address_filed address_field
accepted = ground arith

parse_address_filed-Accepted_example :
    Accepted 0x41 6 (parse_address_filed 0x41 6).1 (parse_address_filed 0x41 6).0
    × IsLaidOut (address_field 0x41)
parse_address_filed-Accepted_example = parse_address_filed-Accepted 0x41 6 accepted

abbrev no_rule : List ℕ → Option Bool
no_rule _ = none

abbrev edge : Edge
edge = dev_init (start [])

abbrev gateway : Gateway
gateway = mgt_init (replicate 6 0) edge

-- With a third part of two bytes and no second part.
accepted_third : (parse_address_filed 0x51 (behind_header 9)).1 ≢ 0
unfolding parse_address_filed address_field
accepted_third = ground arith

no_second : (address_field 0x51).h2_len ≡ 0
unfolding address_field
no_second = refl

third : (address_field 0x51).h3_len ≢ 0
unfolding address_field
third = ground arith

parse_g1_pkt_null_example :
    parse_g1_pkt no_rule 0 (0x30 ∷ 0x51 ∷ 1 ∷ address) 9 5 gateway.ctl edge ≡ fault null_pointer
parse_g1_pkt_null_example =
    parse_g1_pkt_null no_rule 0 0x30 0x51 (1 ∷ address) 9 5 gateway.ctl edge accepted_third
      no_second third

switched_on : gateway.ctl.function ≡ 1
unfolding mgt_init initial_control
switched_on = refl

refused : (parse_address_filed 0xC1 (behind_header 8)).1 ≡ 0
unfolding parse_address_filed address_field
refused = refl

edge_rcv_pkt-refused_example :
    edge_rcv_pkt no_rule [] 0 3 (0x30 ∷ 0xC1 ∷ address) 8 5 gateway
    ≡ ok (if gateway.ctl.up_mode == 2 then 3 else 0, gateway, [])
edge_rcv_pkt-refused_example =
    edge_rcv_pkt-refused no_rule [] 0 3 0x30 0xC1 address 8 5 gateway switched_on (omega arith)
      refused
