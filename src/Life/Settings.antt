-- ===== src/Life/Settings.antt =====
-- The settings in the control block of src/mgt.c, over the course of the program.
use ece_lib.Base.{
  ℕ, ◌<◌, ◌≡◌, ◌≢◌, refl, sym, ◌∙◌, subst, Bool, true, false, not, Option, List, ◌==◌, ltb, leb,
  if◌then◌else◌, length, drop, Bool-cases, inl, inr, arith,
}
use ece_lib.Machine.{
  Returns, WhenOk, faults, returns, bind-WhenOk, then-WhenOk, if-WhenOk, at_ok, returned,
}
use ece_lib.Wire.{load32_at}
use ece_lib.G1Fmt.{add_g1_token, del_g1_token, add_g1_fmt, del_g1_fmt, del_pdt}
use ece_lib.Dev.{add_dev, del_dev}
use ece_lib.Mgt.Protocol.{edge_pro_butt}
use ece_lib.Mgt.{
  Control, Gateway, initial_control, mgt_init, Command, ack, pdt_add, pdt_del, g1_fmt_add,
  g1_fmt_del, g1_token_add, g1_token_del, dev_add, dev_del, ignored, command_of, execute,
  mgt_rcv_msg,
}
use ece_lib.Cli.{Text, Stack, sscanf_u, arg, asks_help}
use ece_lib.Cli.Edge.{
  EdgeCommand, function_on, function_off, status_online, status_offline, set_hello, set_timeout,
  set_up_mode, set_record, unless_zero, run_edge, cmd_edge_hello, cmd_edge_timeout,
  cmd_edge_up_mode, cmd_edge_pkt_record, with_mode, Controls, cmd_edge_on, cmd_edge_off,
  cmd_edge_online, cmd_edge_offline,
}
use ece_lib.Life.Kept.{SameSettings, same, edge_rcv_pkt-Kept}
use ece_lib.Life.Second.{do_mgt_periodic-Kept}
use ece_lib.Life.{
  World, Step, command, message, second, packet, Reached, begins, goes_on, edge_init,
}

-- No interval and no limit is 0, and the mode is one of three.
pub record IsSettled (ctl : Control) : Type 0 where
  pub hello : ctl.hello_interval ≢ 0
  pub timeout : ctl.timeout_num ≢ 0
  pub interval : ctl.up_interval ≢ 0
  pub mode : ctl.up_mode < 3

unless_zero-field : (field num : ℕ) → field ≢ 0 → unless_zero field num ≢ 0
unfolding unless_zero
unless_zero-field field num h = elim (Bool-cases (num == 0)) [
  | inl zero ↦ rw zero h
  | inr more ↦ rw more (ground arith)
]

with_mode-IsSettled :
    (mode num : ℕ) (ctl : Control) → IsSettled ctl → IsSettled (with_mode mode num ctl)
unfolding with_mode
with_mode-IsSettled mode num ctl v = record {
  hello = v.hello;
  timeout = v.timeout;
  interval = unless_zero-field ctl.up_interval num v.interval;
  mode = elim (Bool-cases (ltb mode 3)) [
    | inl known ↦ rw known (ground arith)
    | inr beyond ↦ rw beyond v.mode
  ];
}

if-IsSettled :
    (b : Bool) (x y : Controls) → IsSettled x.1 → IsSettled y.1 → IsSettled (if b then x else y).1
if-IsSettled true x y v w = v
if-IsSettled false x y v w = w

SameSettings-IsSettled : {a b : Control} → SameSettings a b → IsSettled a → IsSettled b
SameSettings-IsSettled s v = record {
  hello = λ e. v.hello (sym s.hello ∙ e);
  timeout = λ e. v.timeout (sym s.timeout ∙ e);
  interval = λ e. v.interval (sym s.interval ∙ e);
  mode = ground (arith, s.mode, v.mode);
}

-- Where no setting is 0 and the mode is one of three, each command of the operator returns, whatever its
-- arguments and its local variables are, and this is so afterwards.
pub run_edge-IsSettled :
    (c : EdgeCommand) (stack : Stack) (argv : List Text) (client ctl : Control)
    → IsSettled ctl
    → Returns (run_edge c stack argv (client, ctl)) λ (_, ctl'). IsSettled ctl'
unfolding run_edge cmd_edge_on cmd_edge_off cmd_edge_online cmd_edge_offline cmd_edge_hello
    cmd_edge_timeout cmd_edge_pkt_record
run_edge-IsSettled function_on stack argv client ctl v = (_, refl, v)
run_edge-IsSettled function_off stack argv client ctl v = (_, refl, v)
run_edge-IsSettled status_online stack argv client ctl v = (_, refl, v)
run_edge-IsSettled status_offline stack argv client ctl v = (_, refl, v)
run_edge-IsSettled set_hello stack argv client ctl v = (
  cmd_edge_hello stack argv (client, ctl),
  refl,
  if-IsSettled (not (length argv == 1)) _ _ v (
      if-IsSettled (asks_help (arg argv 0)) _ _ v record {
        hello = unless_zero-field ctl.hello_interval (sscanf_u stack.num (arg argv 0)) v.hello;
        timeout = v.timeout;
        interval = v.interval;
        mode = v.mode;
      }),
)
run_edge-IsSettled set_timeout stack argv client ctl v = (
  cmd_edge_timeout stack argv (client, ctl),
  refl,
  if-IsSettled (not (length argv == 1)) _ _ v (
      if-IsSettled (asks_help (arg argv 0)) _ _ v record {
        hello = v.hello;
        timeout = unless_zero-field ctl.timeout_num (sscanf_u stack.num (arg argv 0)) v.timeout;
        interval = v.interval;
        mode = v.mode;
      }),
)
run_edge-IsSettled set_up_mode stack argv client ctl v =
    elim (Bool-cases (not (length argv == 2))) [
      | inl shows ↦
          let named : leb 4 ctl.up_mode ≡ false = ground (arith, v.mode) in
          ((client, ctl), rw (cmd_edge_up_mode, shows, named) refl, v)
      | inr sets ↦ elim (Bool-cases (asks_help (arg argv 0))) [
        | inl help ↦ ((client, ctl), rw (cmd_edge_up_mode, sets, help) refl, v)
        | inr numbers ↦
            let mode = sscanf_u stack.num (arg argv 0) in
            let num = sscanf_u stack.num' (arg argv 1) in
            (
              (client, with_mode mode num ctl),
              rw (cmd_edge_up_mode, sets, numbers) refl,
              with_mode-IsSettled mode num ctl v,
            )
      ]
    ]
run_edge-IsSettled set_record stack argv client ctl v = (
  cmd_edge_pkt_record stack argv (client, ctl),
  refl,
  if-IsSettled (not (length argv == 1)) _ _ v
      record { hello = v.hello; timeout = v.timeout; interval = v.interval; mode = v.mode },
)

execute-SameSettings :
    (c : Command) (now : ℕ) (g : Gateway)
    → WhenOk (λ g'. SameSettings g.ctl g'.ctl) (execute c now g)
unfolding execute
execute-SameSettings (ack function scenerio_id) now g =
    returns record { hello = refl; timeout = refl; mode = refl; interval = refl }
execute-SameSettings (pdt_add topic endian) now g = returns (same g.ctl)
execute-SameSettings (pdt_del topic) now g =
    bind-WhenOk (del_pdt topic g.edge.catalog) λ c. returns (same g.ctl)
execute-SameSettings (g1_fmt_add topic key size pkt n offset len) now g =
    bind-WhenOk (add_g1_fmt topic key size pkt n offset len g.edge.catalog)
      λ r. returns (same g.ctl)
execute-SameSettings (g1_fmt_del topic key) now g =
    bind-WhenOk (del_g1_fmt topic key g.edge.catalog) λ c. returns (same g.ctl)
execute-SameSettings (g1_token_add topic key token_topic type offset len) now g =
    bind-WhenOk (add_g1_token topic key token_topic type offset len g.edge.catalog)
      λ r. returns (same g.ctl)
execute-SameSettings (g1_token_del topic key token_topic) now g =
    bind-WhenOk (del_g1_token topic key token_topic g.edge.catalog) λ c. returns (same g.ctl)
execute-SameSettings (dev_add port addr n type topic) now g =
    bind-WhenOk (add_dev port addr n type topic now g.edge) λ r. returns (same g.ctl)
execute-SameSettings (dev_del type addr n) now g =
    bind-WhenOk (del_dev type addr n g.edge) λ e. returns (same g.ctl)
execute-SameSettings ignored now g = returns (same g.ctl)

mgt_rcv_msg-SameSettings :
    (msg : List ℕ) (now : ℕ) (g : Gateway)
    → WhenOk (λ (_, g'). SameSettings g.ctl g'.ctl) (mgt_rcv_msg msg now g)
unfolding mgt_rcv_msg
mgt_rcv_msg-SameSettings msg now g = if-WhenOk (ltb (length msg) 8) (returns (same g.ctl)) (
    bind-WhenOk (load32_at 0 msg) λ type. if-WhenOk (leb edge_pro_butt type) faults (
      bind-WhenOk (command_of type (drop 8 msg)) λ c.
        then-WhenOk (execute-SameSettings c now (record g { stat = record g.stat { timeout = 0 } }))
          λ g' kept. returns kept))

-- The program starts with settings.
pub start-IsSettled : IsSettled initial_control
unfolding initial_control
start-IsSettled = record {
  hello = ground arith;
  timeout = ground arith;
  interval = ground arith;
  mode = ground arith;
}

step-IsSettled :
    (expr : List ℕ → Option Bool) (Fair : List ℕ → Gateway → Type 0) {w w' : World}
    → Step expr Fair w w'
    → IsSettled w.gateway.ctl
    → IsSettled w'.gateway.ctl
step-IsSettled expr Fair {w} (command c stack argv runs rest) v =
    returned (run_edge-IsSettled c stack argv w.client_ctl w.gateway.ctl v) runs
step-IsSettled expr Fair {w} (message msg now code fair runs rest) v =
    SameSettings-IsSettled (at_ok (mgt_rcv_msg-SameSettings msg now w.gateway) runs) v
step-IsSettled expr Fair {w} (second junk now out runs rest) v =
    let (_, kept) =
      at_ok (do_mgt_periodic-Kept (λ c. Unit) (λ c _ mem. tt) junk now w.gateway tt) runs in
    SameSettings-IsSettled kept v
step-IsSettled expr Fair {w} (packet junk type port pkt size now code out runs rest) v =
    let (_, kept) =
      at_ok
        (edge_rcv_pkt-Kept (λ c. Unit) (λ c _ mem. tt) expr junk type port pkt size now w.gateway
          tt)
        runs in
    SameSettings-IsSettled kept v

-- In each state that the program comes to, by commands of the operator, any messages, the work of the
-- seconds and packets of devices, no interval and no limit is 0 and the mode is one of three; so the
-- remainder of the tick by the hello interval is defined.
pub Reached-IsSettled :
    (expr : List ℕ → Option Bool) (Fair : List ℕ → Gateway → Type 0) (w : World)
    → Reached expr Fair w
    → IsSettled w.gateway.ctl
unfolding edge_init mgt_init
Reached-IsSettled expr Fair w (begins mac mem e) =
    subst (λ (g : Gateway). IsSettled g.ctl) (sym e) start-IsSettled
Reached-IsSettled expr Fair w (goes_on {w = u} before step) =
    step-IsSettled expr Fair step (Reached-IsSettled expr Fair u before)
