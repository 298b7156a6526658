-- ===== src/Life/Devices.antt =====
-- The devices of the client through the course of the program.
use ece_lib.Base.{
  ℕ, ◌%◌, sym, subst, Bool, true, false, ◌&&◌, Option, List, [], ltb, leb, ◌==◌, if◌then◌else◌,
  Bool-cases, inl, inr, length, drop,
}
use ece_lib.Machine.{malloc, WhenOk, faults, returns, at_ok, bind-WhenOk, then-WhenOk, if-WhenOk}
use ece_lib.Wire.{load32_at}
use ece_lib.G1Fmt.{del_pdt, add_g1_fmt, del_g1_fmt, add_g1_token, del_g1_token}
use ece_lib.G1Fmt.Invariant.{IsCatalog}
use ece_lib.Dev.{Edge, dev_init}
use ece_lib.Dev.Ageing.{Report, do_device_update}
use ece_lib.Dev.Alive.{IsEdge}
use ece_lib.Dev.Kept.{no_devs-AreDevs}
use ece_lib.Dev.Deleted.{add_dev-IsEdge, del_dev-IsEdge, do_device_ageing-IsEdge}
use ece_lib.Dev.Updated.{do_device_update-IsEdge}
use ece_lib.G1.Devices.{edge_rcv_pkt-IsEdge}
use ece_lib.Mgt.{
  Gateway, Command, ack, pdt_add, pdt_del, g1_fmt_add, g1_fmt_del, g1_token_add, g1_token_del,
  dev_add, dev_del, ignored, command_of, execute, mgt_rcv_msg, mgt_init,
}
use ece_lib.Mgt.Protocol.{edge_status_online, edge_up_mode_attr_periodic, edge_pro_butt}
use ece_lib.Mgt.Periodic.{Out, mgt_send_hello_msg, check_timeout, do_mgt_periodic}
use ece_lib.Life.{
  World, Step, command, message, second, packet, Reached, begins, goes_on, edge_init,
}
use ece_lib.Life.Catalogs.{IsFair, Reached-IsCatalog}

execute-IsEdge :
    (c : Command) (now : ℕ) (g : Gateway)
    → IsEdge g.edge
    → WhenOk (λ g'. IsEdge g'.edge) (execute c now g)
unfolding execute
execute-IsEdge (ack function scenerio_id) now g v = returns v
execute-IsEdge (pdt_add topic endian) now g v = returns v
execute-IsEdge (pdt_del topic) now g v = bind-WhenOk (del_pdt topic g.edge.catalog) λ c. returns v
execute-IsEdge (g1_fmt_add topic key size pkt n offset len) now g v =
    bind-WhenOk (add_g1_fmt topic key size pkt n offset len g.edge.catalog) λ r. returns v
execute-IsEdge (g1_fmt_del topic key) now g v =
    bind-WhenOk (del_g1_fmt topic key g.edge.catalog) λ c. returns v
execute-IsEdge (g1_token_add topic key token_topic type offset len) now g v =
    bind-WhenOk (add_g1_token topic key token_topic type offset len g.edge.catalog) λ r. returns v
execute-IsEdge (g1_token_del topic key token_topic) now g v =
    bind-WhenOk (del_g1_token topic key token_topic g.edge.catalog) λ c. returns v
execute-IsEdge (dev_add port addr n type topic) now g v =
    then-WhenOk (add_dev-IsEdge port addr n type topic now g.edge v) λ r v'. returns v'
execute-IsEdge (dev_del type addr n) now g v =
    then-WhenOk (del_dev-IsEdge type addr n g.edge v) λ e v'. returns v'
execute-IsEdge ignored now g v = returns v

mgt_rcv_msg-IsEdge :
    (msg : List ℕ) (now : ℕ) (g : Gateway)
    → IsEdge g.edge
    → WhenOk (λ (_, g'). IsEdge g'.edge) (mgt_rcv_msg msg now g)
unfolding mgt_rcv_msg
mgt_rcv_msg-IsEdge msg now g v = if-WhenOk (ltb (length msg) 8) (returns v) (
    bind-WhenOk (load32_at 0 msg) λ type. if-WhenOk (leb edge_pro_butt type) faults (
      bind-WhenOk (command_of type (drop 8 msg)) λ c.
        then-WhenOk (execute-IsEdge c now (record g { stat = record g.stat { timeout = 0 } }) v)
          λ g' v'. returns v'))

first-IsEdge :
    (b : Bool) (junk : List ℕ) (g : Gateway)
    → IsEdge g.edge
    → let r : List Out × Gateway = if b then mgt_send_hello_msg junk g else ([], g) in
      IsEdge r.1.edge
unfolding mgt_send_hello_msg
first-IsEdge true junk g v = elim (Bool-cases (malloc g.edge.catalog.mem).0) [
  | inl got ↦ rw got v
  | inr out ↦ rw out v
]
first-IsEdge false junk g v = v

check_timeout-IsEdge : (g : Gateway) → IsEdge g.edge → IsEdge (check_timeout g).edge
unfolding check_timeout
check_timeout-IsEdge g v =
    elim (Bool-cases
      (leb g.ctl.timeout_num g.stat.timeout && (g.ctl.status == edge_status_online))) [
        | inl missed ↦ rw missed v
        | inr answered ↦ rw answered v
      ]

last-IsEdge :
    (b : Bool) (scenerio_id interval now : ℕ) (e : Edge)
    → IsEdge e
    → let r : Edge × List Report =
        if b then do_device_update scenerio_id interval now e else (e, []) in
      IsEdge r.0
last-IsEdge true scenerio_id interval now e v = do_device_update-IsEdge scenerio_id interval now e v
last-IsEdge false scenerio_id interval now e v = v

do_mgt_periodic-IsEdge :
    (junk : List ℕ) (now : ℕ) (g : Gateway)
    → IsEdge g.edge
    → WhenOk (λ (_, g'). IsEdge g'.edge) (do_mgt_periodic junk now g)
unfolding do_mgt_periodic
do_mgt_periodic-IsEdge junk now g v =
    let due = g.tick % g.ctl.hello_interval == 0 in
    let r₁ : List Out × Gateway = if due then mgt_send_hello_msg junk g else ([], g) in
    let v₂ = check_timeout-IsEdge r₁.1 (first-IsEdge due junk g v) in
    let g₂ = check_timeout r₁.1 in
    if-WhenOk (g.ctl.hello_interval == 0) faults (
      then-WhenOk (do_device_ageing-IsEdge g₂.ctl.dev_age_interval now g₂.edge v₂) λ e v₃. returns (
        last-IsEdge (g₂.ctl.up_mode == edge_up_mode_attr_periodic) g₂.ctl.scenerio_id
          g₂.ctl.up_interval now e v₃))

step-IsEdge :
    (expr : List ℕ → Option Bool) {w w' : World}
    → Step expr IsFair w w'
    → IsEdge w.gateway.edge
    → IsCatalog w.gateway.edge.catalog
    → IsEdge w'.gateway.edge
step-IsEdge expr {w} (command c stack argv runs rest) v is =
    subst (λ (g : Gateway). IsEdge g.edge) (sym rest) v
step-IsEdge expr {w} (message msg now code fair runs rest) v is =
    at_ok (mgt_rcv_msg-IsEdge msg now w.gateway v) runs
step-IsEdge expr {w} (second junk now out runs rest) v is =
    at_ok (do_mgt_periodic-IsEdge junk now w.gateway v) runs
step-IsEdge expr {w} (packet junk type port pkt size now code out runs rest) v is =
    at_ok (edge_rcv_pkt-IsEdge expr junk type port pkt size now w.gateway v is) runs

-- In each state that the program comes to from its start, by commands of the operator, messages that
-- respect what the client does not check, the work of the seconds and packets of devices, the devices
-- are well formed: each is stored under its own identifier of 32 characters with a well-formed map of
-- values, and the order of age has identifiers of devices that are there, each at most once.
pub Reached-IsEdge :
    (expr : List ℕ → Option Bool) (w : World) → Reached expr IsFair w → IsEdge w.gateway.edge
unfolding edge_init mgt_init dev_init
Reached-IsEdge expr w (begins mac mem e) =
    subst (λ (g : Gateway). IsEdge g.edge) (sym e) no_devs-AreDevs
Reached-IsEdge expr w (goes_on {w = u} before step) =
    step-IsEdge expr step (Reached-IsEdge expr u before) (Reached-IsCatalog expr u before)
