-- ===== src/Cli/Edge.antt =====
-- The commands of app/cli_main.c that set the control blocks: `client_ctl` of the server and
-- `g_edge_mgt_ctl` of the client, in this order in a pair.
use ece_lib.Base.{ℕ, List, ◌==◌, ltb, leb, not, if◌then◌else◌, length}
use ece_lib.Machine.{Run, ok, fault, out_of_bounds}
use ece_lib.Mgt.Protocol.{edge_status_offline, edge_status_online, edge_func_off, edge_func_on}
use ece_lib.Mgt.{Control}
use ece_lib.Cli.{Text, Stack, arg, asks_help, sscanf_u}

abbrev pub Controls : Type 0
Controls = Control × Control

unfoldable pub cmd_edge_on : Controls → Controls
cmd_edge_on (client, ctl) = (record client { function = edge_func_on }, ctl)

unfoldable pub cmd_edge_off : Controls → Controls
cmd_edge_off (client, ctl) = (record client { function = edge_func_off }, ctl)

unfoldable pub cmd_edge_online : Controls → Controls
cmd_edge_online (client, ctl) = (record client { status = edge_status_online }, ctl)

unfoldable pub cmd_edge_offline : Controls → Controls
cmd_edge_offline (client, ctl) = (record client { status = edge_status_offline }, ctl)

-- `if (num != 0) field = num;`
unfoldable pub unless_zero : (field num : ℕ) → ℕ
unless_zero field num = if num == 0 then field else num

unfoldable pub cmd_edge_hello : Stack → List Text → Controls → Controls
cmd_edge_hello stack argv (client, ctl) =
    if not (length argv == 1)
    then (client, ctl)
    else if asks_help (arg argv 0)
    then (client, ctl)
    else (
      client,
      record ctl {
        hello_interval = unless_zero ctl.hello_interval (sscanf_u stack.num (arg argv 0));
      },
    )

unfoldable pub cmd_edge_timeout : Stack → List Text → Controls → Controls
cmd_edge_timeout stack argv (client, ctl) =
    if not (length argv == 1)
    then (client, ctl)
    else if asks_help (arg argv 0)
    then (client, ctl)
    else (
      client,
      record ctl { timeout_num = unless_zero ctl.timeout_num (sscanf_u stack.num (arg argv 0)) },
    )

-- The two assignments of `cmd_edge_up_mode`: a mode beyond 2 and an interval of 0 are refused.
unfoldable pub with_mode : (mode num : ℕ) → Control → Control
with_mode mode num ctl = record ctl {
  up_mode = if ltb mode 3 then mode else ctl.up_mode;
  up_interval = unless_zero ctl.up_interval num;
}

-- Without two arguments the entry of `str_up_mode` for the mode is printed; the array has four.
unfoldable pub cmd_edge_up_mode : Stack → List Text → Controls → Run Controls
unfolding with_mode
cmd_edge_up_mode stack argv (client, ctl) =
    if not (length argv == 2)
    then (if leb 4 ctl.up_mode then fault out_of_bounds else ok (client, ctl))
    else if asks_help (arg argv 0)
    then ok (client, ctl)
    else ok
        (client, with_mode (sscanf_u stack.num (arg argv 0)) (sscanf_u stack.num' (arg argv 1)) ctl)

-- `on` is not set where the argument is "?".
unfoldable pub cmd_edge_pkt_record : Stack → List Text → Controls → Controls
cmd_edge_pkt_record stack argv (client, ctl) =
    if not (length argv == 1)
    then (client, ctl)
    else (let on = if asks_help (arg argv 0) then stack.num else sscanf_u stack.num (arg argv 0) in
        (client, record ctl { pkt_record = if on == 0 then 0 else 1 }))

-- The commands of the mode `MODE_CONFIG_EDGE`.
pub data EdgeCommand : Type 0 where
  function_on function_off status_online status_offline set_hello set_timeout set_up_mode
        set_record :
      EdgeCommand

unfoldable pub run_edge : EdgeCommand → Stack → List Text → Controls → Run Controls
unfolding cmd_edge_on cmd_edge_off cmd_edge_online cmd_edge_offline cmd_edge_hello cmd_edge_timeout
    cmd_edge_up_mode cmd_edge_pkt_record
run_edge function_on stack argv both = ok (cmd_edge_on both)
run_edge function_off stack argv both = ok (cmd_edge_off both)
run_edge status_online stack argv both = ok (cmd_edge_online both)
run_edge status_offline stack argv both = ok (cmd_edge_offline both)
run_edge set_hello stack argv both = ok (cmd_edge_hello stack argv both)
run_edge set_timeout stack argv both = ok (cmd_edge_timeout stack argv both)
run_edge set_up_mode stack argv both = cmd_edge_up_mode stack argv both
run_edge set_record stack argv both = ok (cmd_edge_pkt_record stack argv both)
