-- ===== src/G1/Status.antt =====
-- What `edge_rcv_pkt` of src/g1.c returns and sends for packets that are not handled.
use ece_lib.Base.{
  ℕ, ◌≡◌, refl, ◌≢◌, Bool, false, not, ◌||◌, Option, List, [], ◌∷◌, arith, ◌==◌, if◌then◌else◌,
  Bool-cases, Option-cases, inl, inr,
}
use ece_lib.Machine.{ok}
use ece_lib.Mgt.Protocol.{edge_func_on, edge_up_mode_pkt}
use ece_lib.Mgt.{Gateway}
use ece_lib.G1.{behind_header, parse_address_filed, parse_g1_pkt, edge_dp_rcv, edge_rcv_pkt}

received :
    (g : Gateway) (size : ℕ)
    → g.ctl.function ≡ edge_func_on
    → size ≢ 0
    → (not (g.ctl.function == edge_func_on) || (size == 0)) ≡ false
received g size on some_byte = rw on (ground (arith, some_byte))

-- Where the function is on, a packet with a refused address is dropped with the status of a packet that was handled: nothing
-- is sent, and the client that asks for packets is told that it is a raw packet.
pub edge_rcv_pkt-refused :
    (expr : List ℕ → Option Bool) (junk : List ℕ) (type port msg_type addr_ctrl : ℕ) (addr : List ℕ)
    (size now : ℕ) (g : Gateway)
    → g.ctl.function ≡ edge_func_on
    → size ≢ 0
    → (parse_address_filed addr_ctrl (behind_header size)).1 ≡ 0
    → edge_rcv_pkt expr junk type port (msg_type ∷ addr_ctrl ∷ addr) size now g
      ≡ ok (if g.ctl.up_mode == edge_up_mode_pkt then 3 else 0, g, [])
unfolding edge_rcv_pkt edge_dp_rcv parse_g1_pkt
edge_rcv_pkt-refused expr junk type port msg_type addr_ctrl addr size now g on some_byte refused =
    let dropped : parse_g1_pkt expr type (msg_type ∷ addr_ctrl ∷ addr) size now g.ctl g.edge
        ≡ ok (0, g.edge, []) =
      elim (Option-cases (parse_address_filed addr_ctrl (behind_header size)).0) [
        | inl none_set ↦ rw (parse_g1_pkt, none_set) refl
        | inr (a, set) ↦ rw (parse_g1_pkt, set, refused) refl
      ] in
    let taken = received g size on some_byte in
    elim (Bool-cases (g.ctl.up_mode == edge_up_mode_pkt)) [
      | inl raw ↦ rw (edge_rcv_pkt, taken, dropped, raw) refl
      | inr other ↦ rw (edge_rcv_pkt, taken, dropped, other) refl
    ]
