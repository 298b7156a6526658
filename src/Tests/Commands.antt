-- ===== src/Tests/Commands.antt =====
-- Commands of an operator.
use ece_lib.Base.{
  drop, ℕ, ◌≡◌, refl, Bool, Option, List, [], ◌∷◌, some, none, arith, true, replicate,
}
use ece_lib.Machine.{ok, Returns, WhenOk, malloc, ◌>>=◌}
use ece_lib.Md5.{hex_text}
use ece_lib.Mgt.{Gateway, initial_control, mgt_init}
use ece_lib.Dev.{dev_init}
use ece_lib.G1Fmt.Start.{start}
use ece_lib.Srv.RoundTrip.{SendsFor}
use ece_lib.Srv.Requests.{Request, wants_dev, srv_request, command_for, rcv-srv_request, IsSendable}
use ece_lib.Cli.{Stack}
use ece_lib.Cli.Entries.{Entry, enter_dev}
use ece_lib.Cli.Edge.{set_hello}
use ece_lib.Cli.Packets.{Handover, cmd_wloc_rcv_cli_pkt, cleared, app_round, app_file_pkt}
use ece_lib.Cli.Packets.Handed.{IsHandover, received, cmd_wloc_rcv_cli_pkt-received}
use ece_lib.Cli.Console.{Console, mode_edge, sets_edge, run_callback}
use ece_lib.Cli.Console.Kept.{IsConsole, run_callback-IsConsole}
use ece_lib.Life.Settings.{start-IsSettled}

memory_left : (malloc []).0 ≡ true
unfolding malloc
memory_left = refl

abbrev address : List ℕ
address = 0x20 ∷ 0xc7 ∷ 0xdd ∷ 0x11 ∷ []

device : Request
device = wants_dev address 4 7 0 3

device-IsSendable : IsSendable device
unfolding device IsSendable
device-IsSendable = ((omega arith, omega arith), omega arith, omega arith, omega arith)

rcv-srv_request_example :
    Returns (srv_request device []) λ sent. SendsFor sent [] (command_for device)
rcv-srv_request_example = rcv-srv_request device [] device-IsSendable memory_left

abbrev stack : Stack
stack = record { word = replicate 4 7; addr = replicate 64 9; num = 11; num' = 12 }

-- "20c7dd11 00000007 0 3"
abbrev entry : Entry
entry = enter_dev address 7 0 3

abbrev handover : Handover
handover = record { pkt = some app_file_pkt; len = 3; port = 4; file_pkt = replicate 512 1 }

handover-IsHandover : IsHandover handover
handover-IsHandover = record { whole = refl; within = omega arith }

abbrev gateway : Gateway
gateway = mgt_init (1 ∷ 2 ∷ 3 ∷ 4 ∷ 5 ∷ 6 ∷ []) (dev_init (start []))

-- Every rule fails.
abbrev no_rule : List ℕ → Option Bool
no_rule text = none

abbrev junk : List ℕ
junk = replicate 256 0

cmd_wloc_rcv_cli_pkt-received_example :
    Returns (cmd_wloc_rcv_cli_pkt (hex_text (1 ∷ 2 ∷ []) ∷ []) handover) λ h'.
      app_round no_rule junk 100 h' gateway ≡ (do
        (g', out) ← received no_rule junk 100 4 (1 ∷ 2 ∷ drop 2 (replicate 512 0)) 2 gateway
        ok (cleared h', g', out))
cmd_wloc_rcv_cli_pkt-received_example =
    cmd_wloc_rcv_cli_pkt-received no_rule junk 100 (1 ∷ 2 ∷ []) handover gateway
      (omega arith, (omega arith, tt)) (omega arith) (omega arith)

abbrev console : Console
console = record {
  mode = mode_edge;
  controls = (initial_control, initial_control);
  handover = handover;
}

-- "hello-interval 30"
run_callback-IsConsole_example :
    WhenOk
      (λ (c', _). IsConsole c')
      (run_callback (λ path. none) (sets_edge set_hello) stack ((51 ∷ 48 ∷ []) ∷ []) console [])
run_callback-IsConsole_example =
    run_callback-IsConsole (λ path. none) (sets_edge set_hello) stack ((51 ∷ 48 ∷ []) ∷ []) console
      [] record { settled = start-IsSettled; handover = handover-IsHandover }
