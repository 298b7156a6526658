-- ===== src/Cli/Console.antt =====
-- The table of commands that `cli_main` of app/cli_main.c registers, and what each does. How libcli
-- finds a command by the words of a line is not part of this; `cli_set_configmode` sets the mode.
pub mod Kept
use ece_lib.Base.{ℕ, codes, Option, none, some, List, [], ◌∷◌}
use ece_lib.Machine.{Run, ok, ◌>>=◌, Memory}
use ece_lib.Srv.{Sent}
use ece_lib.Cli.{
  Text, Stack, ServerCommand, product_add, product_delete, device_add, device_delete, format_add,
  format_delete, token_add, token_delete, run_server,
}
use ece_lib.Cli.Edge.{
  Controls, EdgeCommand, function_on, function_off, status_online, status_offline, set_hello,
  set_timeout, set_up_mode, set_record, run_edge,
}
use ece_lib.Cli.Packets.{Handover, PacketCommand, recv_built_in, recv_file, recv_cli, run_packet}

-- `MODE_EXEC`, `MODE_CONFIG`, and the modes `MODE_CONFIG_INT`, `MODE_CONFIG_WLOC`, `MODE_CONFIG_SERVER`
-- and `MODE_CONFIG_EDGE`.
pub data Mode : Type 0 where
  mode_exec mode_config mode_int mode_wloc mode_server mode_edge : Mode

-- The tables that a command prints.
pub data Shown : Type 0 where
  all_pdt all_dev all_attr : Shown

pub data Callback : Type 0 where
  enters : Mode → Callback
  takes_packet : PacketCommand → Callback
  asks_server : ServerCommand → Callback
  sets_edge : EdgeCommand → Callback
  shows : Shown → Callback

-- A command: the words that lead to it, the mode that it is known in, and its function, if it has one.
pub record Registered : Type 0 where
  pub words : List Text
  pub mode : Mode
  pub callback : Option Callback

abbrev word_one : Text → Mode → Option Callback → Registered
word_one a m f = record { words = a ∷ []; mode = m; callback = f }

abbrev word_two : Text → Text → Mode → Option Callback → Registered
word_two a b m f = record { words = a ∷ b ∷ []; mode = m; callback = f }

abbrev recv_word : Text → PacketCommand → Registered
recv_word a p = record {
  words = codes "packet" ∷ codes "recv" ∷ a ∷ [];
  mode = mode_wloc;
  callback = some (takes_packet p);
}

-- The calls of `cli_register_command`, in their order.
unfoldable pub registered : List Registered
registered =
    word_one (codes "wloc") mode_exec (some (enters mode_wloc))
    ∷ word_one (codes "packet") mode_wloc none
    ∷ word_two (codes "packet") (codes "recv") mode_wloc none
    ∷ recv_word (codes "built-in") recv_built_in
    ∷ recv_word (codes "file") recv_file
    ∷ recv_word (codes "cli") recv_cli
    ∷ word_one (codes "server") mode_exec (some (enters mode_server))
    ∷ word_one (codes "product") mode_server none
    ∷ word_two (codes "product") (codes "add") mode_server (some (asks_server product_add))
    ∷ word_two (codes "product") (codes "delete") mode_server (some (asks_server product_delete))
    ∷ word_two (codes "product") (codes "show") mode_server (some (shows all_pdt))
    ∷ word_one (codes "device") mode_server none
    ∷ word_two (codes "device") (codes "add") mode_server (some (asks_server device_add))
    ∷ word_two (codes "device") (codes "delete") mode_server (some (asks_server device_delete))
    ∷ word_two (codes "device") (codes "show") mode_server (some (shows all_dev))
    ∷ word_one (codes "packet-fmt") mode_server none
    ∷ word_two (codes "packet-fmt") (codes "add") mode_server (some (asks_server format_add))
    ∷ word_two (codes "packet-fmt") (codes "delete") mode_server (some (asks_server format_delete))
    ∷ word_one (codes "packet-token") mode_server none
    ∷ word_two (codes "packet-token") (codes "add") mode_server (some (asks_server token_add))
    ∷ word_two (codes "packet-token") (codes "delete") mode_server (some (asks_server token_delete))
    ∷ word_one (codes "attr-show") mode_server (some (shows all_attr))
    ∷ word_one (codes "edge") mode_exec (some (enters mode_edge))
    ∷ word_one (codes "status") mode_edge none
    ∷ word_two (codes "status") (codes "online") mode_edge (some (sets_edge status_online))
    ∷ word_two (codes "status") (codes "offline") mode_edge (some (sets_edge status_offline))
    ∷ word_one (codes "function") mode_edge none
    ∷ word_two (codes "function") (codes "on") mode_edge (some (sets_edge function_on))
    ∷ word_two (codes "function") (codes "off") mode_edge (some (sets_edge function_off))
    ∷ word_one (codes "hello-interval") mode_edge (some (sets_edge set_hello))
    ∷ word_one (codes "timeout-num") mode_edge (some (sets_edge set_timeout))
    ∷ word_one (codes "up-mode") mode_edge (some (sets_edge set_up_mode))
    ∷ word_one (codes "pkt-record") mode_edge (some (sets_edge set_record))
    ∷ []

-- What the commands change: the mode, the two control blocks, and the packet that is handed over.
pub record Console : Type 0 where
  pub mode : Mode
  pub controls : Controls
  pub handover : Handover

-- The call of a command's function, with the message that the server sends to the client.
unfoldable pub run_callback :
    (file : Text → Option (List ℕ))
    → Callback
    → Stack
    → List Text
    → Console
    → Memory
    → Run (Console × Sent)
unfolding run_packet run_server run_edge
run_callback file (enters m) stack argv c mem = ok (record c { mode = m }, (none, mem))
run_callback file (takes_packet p) stack argv c mem = do
  h ← run_packet file p argv c.handover
  ok (record c { handover = h }, (none, mem))
run_callback file (asks_server s) stack argv c mem = do
  sent ← run_server s stack argv mem
  ok (c, sent)
run_callback file (sets_edge e) stack argv c mem = do
  both ← run_edge e stack argv c.controls
  ok (record c { controls = both }, (none, mem))
run_callback file (shows what) stack argv c mem = ok (c, (none, mem))
