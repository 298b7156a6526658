-- ===== src/Life.antt =====
-- The course of the program: what the threads of app/main.c, app/cli_main.c and src/mgt.c do to the
-- control blocks and to the client, one step after the other. The global lock keeps two steps apart,
-- except for the commands, which write single fields without it.
pub mod Kept
pub mod Second
pub mod Settings
pub mod Words
pub mod Catalogs
pub mod Devices
use ece_lib.Base.{ℕ, Bool, ◌≡◌, Option, List}
use ece_lib.Machine.{ok, Memory}
use ece_lib.Dev.{dev_init}
use ece_lib.G1Fmt.Start.{start}
use ece_lib.Mgt.{Control, Gateway, mgt_init, mgt_rcv_msg}
use ece_lib.Mgt.Periodic.{Out, do_mgt_periodic}
use ece_lib.G1.{edge_rcv_pkt}
use ece_lib.Cli.{Text, Stack}
use ece_lib.Cli.Edge.{EdgeCommand, run_edge}

-- The client, and the control block of the server.
pub record World : Type 0 where
  pub client_ctl : Control
  pub gateway : Gateway

-- A command of the operator, a message to the client, the work of a second and a packet of a device.
-- `expr` evaluates a rule; `Fair` restricts the messages.
pub data Step (expr : List ℕ → Option Bool) (Fair : List ℕ → Gateway → Type 0)
    : World → World → Type 0 where
  command :
      {w w' : World} (c : EdgeCommand) (stack : Stack) (argv : List Text)
      → run_edge c stack argv (w.client_ctl, w.gateway.ctl) ≡ ok (w'.client_ctl, w'.gateway.ctl)
      → w'.gateway ≡ record w.gateway { ctl = w'.gateway.ctl }
      → Step expr Fair w w'
  message :
      {w w' : World} (msg : List ℕ) (now code : ℕ)
      → Fair msg w.gateway
      → mgt_rcv_msg msg now w.gateway ≡ ok (code, w'.gateway)
      → w'.client_ctl ≡ w.client_ctl
      → Step expr Fair w w'
  second :
      {w w' : World} (junk : List ℕ) (now : ℕ) (out : List Out)
      → do_mgt_periodic junk now w.gateway ≡ ok (out, w'.gateway)
      → w'.client_ctl ≡ w.client_ctl
      → Step expr Fair w w'
  packet :
      {w w' : World} (junk : List ℕ) (type port : ℕ) (pkt : List ℕ) (size now code : ℕ)
      (out : List Out)
      → edge_rcv_pkt expr junk type port pkt size now w.gateway ≡ ok (code, w'.gateway, out)
      → w'.client_ctl ≡ w.client_ctl
      → Step expr Fair w w'

-- `edge_init`, with the address that `ioctl` gives and the coming outcomes of `malloc`.
unfoldable pub edge_init : (mac : List ℕ) → Memory → Gateway
unfolding mgt_init dev_init start
edge_init mac mem = mgt_init mac (dev_init (start mem))

-- The states that the program comes to from the one that `edge_init` leaves.
pub data Reached (expr : List ℕ → Option Bool) (Fair : List ℕ → Gateway → Type 0)
    : World → Type 0 where
  begins :
      {w : World} (mac : List ℕ) (mem : Memory)
      → w.gateway ≡ edge_init mac mem
      → Reached expr Fair w
  goes_on : {w w' : World} → Reached expr Fair w → Step expr Fair w w' → Reached expr Fair w'
