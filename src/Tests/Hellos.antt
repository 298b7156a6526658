-- ===== src/Tests/Hellos.antt =====
-- A client that says hello to a server, and one that gets no answer.
use ece_lib.Base.{ℕ, ◌≡◌, refl, List, [], ◌∷◌, arith, replicate}
use ece_lib.Machine.{Returns, malloc, ok}
use ece_lib.Mgt.{Control, Gateway, mgt_init, initial_control, mgt_rcv_msg}
use ece_lib.Mgt.Periodic.{hello_msg}
use ece_lib.Mgt.Offline.{IsQuiet, hellos_due, silent, silent-offline}
use ece_lib.Mgt.InTime.{silent_in_time}
use ece_lib.Dev.Kept.{no_dev, no_devs-AreDevs}
use ece_lib.Dev.{dev_init}
use ece_lib.G1Fmt.Start.{start}
use ece_lib.Srv.Receive.{Server, ack_msg, rcv_edge_msg}
use ece_lib.Srv.Hello.{stat_bytes, taken_up, rcv-ack_msg, rcv-hello_msg}

abbrev gateway : Gateway
gateway = mgt_init (1 ∷ 2 ∷ 3 ∷ 4 ∷ 5 ∷ 6 ∷ []) (dev_init (start []))

abbrev control : Control
control = record {
  status = 1;
  function = 1;
  scenerio_id = 15;
  hello_interval = 240;
  timeout_num = 3;
  dev_age_interval = 1200;
  up_mode = 1;
  up_interval = 10;
  pkt_record = 0;
}

abbrev server : Server
server = record { client_ctl = control; client_stat = [] }

abbrev junk : List ℕ
junk = replicate 32 0xAA

rcv-ack_msg_example : mgt_rcv_msg (ack_msg control) 5 gateway ≡ ok (0, taken_up control gateway)
rcv-ack_msg_example = rcv-ack_msg control 5 gateway (omega arith) (omega arith)

rcv-hello_msg_example :
    rcv_edge_msg (hello_msg junk gateway) server []
    ≡ ok (
      record server { client_stat = stat_bytes junk gateway },
      ack_msg control ∷ [],
      (malloc []).1,
    )
unfolding mgt_init malloc
rcv-hello_msg_example = rcv-hello_msg junk gateway server [] refl refl refl refl

abbrev online : Gateway
online = taken_up control gateway

-- With a hello in every other second.
abbrev often : Gateway
often = record online { ctl = record online.ctl { hello_interval = 2 } }

abbrev five_times : List ℕ
five_times = 100 ∷ 101 ∷ 102 ∷ 103 ∷ 104 ∷ []

often-IsQuiet : IsQuiet often
unfolding mgt_init dev_init start
often-IsQuiet = record {
  memory = refl;
  devs = no_devs-AreDevs;
  live = λ q x iq found. absurd (ground (arith, no_dev q, found));
}

silent-offline_example : Returns (silent junk five_times often) λ g'. g'.ctl.status ≡ 0
unfolding mgt_init initial_control dev_init start hellos_due
silent-offline_example =
    silent-offline five_times junk often often-IsQuiet (omega arith) refl (omega arith)
      (omega arith) (omega arith) (omega arith)

silent_in_time_example : Returns (silent junk (99 ∷ five_times) often) λ g'. g'.ctl.status ≡ 0
unfolding mgt_init initial_control dev_init start
silent_in_time_example =
    silent_in_time (99 ∷ five_times) junk often often-IsQuiet (omega arith) refl (omega arith)
      (omega arith) (omega arith) (omega arith)
