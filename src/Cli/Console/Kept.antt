-- ===== src/Cli/Console/Kept.antt =====
-- What every command of app/cli_main.c keeps.
use ece_lib.Base.{ℕ, Option, List}
use ece_lib.Machine.{Memory, WhenOk, returns, bind-WhenOk, then-WhenOk, Returns-WhenOk}
use ece_lib.Cli.{Text, Stack, run_server}
use ece_lib.Cli.Packets.Handed.{IsHandover}
use ece_lib.Cli.Packets.Stored.{run_packet-IsHandover}
use ece_lib.Cli.Console.{
  Callback, enters, takes_packet, asks_server, sets_edge, shows, Console, run_callback,
}
use ece_lib.Life.Settings.{IsSettled, run_edge-IsSettled}

-- The settings of the client are usable, and a packet that waits lies within its array.
pub record IsConsole (c : Console) : Type 0 where
  pub settled : IsSettled c.controls.1
  pub handover : IsHandover c.handover

-- Whatever the command, its arguments, its local variables and the files are: where it ends normally, the
-- settings stay usable (no interval and no limit is 0, and the mode is one of three), and the length of a
-- packet that waits stays within the array that its pointer leads to.
pub run_callback-IsConsole :
    (file : Text → Option (List ℕ)) (f : Callback) (stack : Stack) (argv : List Text) (c : Console)
    (mem : Memory)
    → IsConsole c
    → WhenOk (λ (c', _). IsConsole c') (run_callback file f stack argv c mem)
unfolding run_callback
run_callback-IsConsole file (enters m) stack argv c mem v =
    returns record { settled = v.settled; handover = v.handover }
run_callback-IsConsole file (takes_packet p) stack argv c mem v =
    then-WhenOk (run_packet-IsHandover file p argv c.handover v.handover)
      λ h h_is. returns record { settled = v.settled; handover = h_is }
run_callback-IsConsole file (asks_server s) stack argv c mem v =
    bind-WhenOk (run_server s stack argv mem) λ sent. returns v
run_callback-IsConsole file (sets_edge e) stack argv c mem v =
    then-WhenOk
      (Returns-WhenOk (run_edge-IsSettled e stack argv c.controls.0 c.controls.1 v.settled))
      λ both settled. returns record { settled = settled; handover = v.handover }
run_callback-IsConsole file (shows what) stack argv c mem v = returns v
