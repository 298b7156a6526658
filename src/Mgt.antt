-- ===== src/Mgt.antt =====
-- The management of the edge client, src/mgt.c with inc/mgt.h: what `mgt_rcv_msg` reads out of a
-- message, what it then does, and the work of every second.
--
-- A message is the list of its bytes, as long as the `len` that MQTT gives. The global lock keeps
-- the packet path out while a message is handled, and is not modelled. Memory that `malloc` returns
-- and that is sent before it is written is the parameter `junk`.
pub mod Protocol
pub mod Periodic
pub mod Offline
pub mod InTime
use ece_lib.Base.{
  ℕ, ◌+◌, ◌-◌, ◌^◌, Bool, true, false, Option, none, some, List, [], ◌∷◌, ◌++◌, ◌==◌, ltb, leb,
  if◌then◌else◌, length, drop,
}
use ece_lib.Machine.{Run, ok, fault, out_of_bounds, ◌>>=◌}
use ece_lib.Wire.{ntohl_at, load32_at}
use ece_lib.Pdt.{Catalog, add_pdt}
use ece_lib.G1Fmt.{add_g1_token, del_g1_token, add_g1_fmt, del_g1_fmt, del_pdt}
use ece_lib.Dev.{Dev, Edge, add_dev, del_dev}
use Protocol.*

-- `struct edge_mgt_control`
pub record Control : Type 0 where
  pub status : ℕ
  pub function : ℕ
  pub scenerio_id : ℕ
  pub hello_interval : ℕ
  pub timeout_num : ℕ
  pub dev_age_interval : ℕ
  pub up_mode : ℕ
  pub up_interval : ℕ
  pub pkt_record : ℕ

-- `struct edge_mgt_stat`
pub record Stat : Type 0 where
  pub mac : List ℕ
  pub link_type : ℕ
  pub timeout : ℕ

-- `g_edge_mgt_ctl`, `g_edge_mgt_stat`, the static `tick` and the state of the parts below.
pub record Gateway : Type 0 where
  pub ctl : Control
  pub stat : Stat
  pub tick : ℕ
  pub edge : Edge

-- The initial value of `g_edge_mgt_ctl`.
unfoldable pub initial_control : Control
initial_control = record {
  status = edge_status_offline;
  function = edge_func_on;
  scenerio_id = 0;
  hello_interval = 240;
  timeout_num = 3;
  dev_age_interval = 1200;
  up_mode = edge_up_mode_attr_periodic;
  up_interval = 10;
  pkt_record = edge_func_off;
}

-- `mgt_init`, with the address that `ioctl` gives.
unfoldable pub mgt_init : (mac : List ℕ) → Edge → Gateway
unfolding initial_control
mgt_init mac e = record {
  ctl = initial_control;
  stat = record { mac = mac; link_type = 0; timeout = 0 };
  tick = 0;
  edge = e;
}

-- What a message asks for. `ignored` is a message that is shorter than its type needs, or that the
-- switch does not name.
pub data Command : Type 0 where
  ack : (function scenerio_id : ℕ) → Command
  pdt_add : (topic endian : ℕ) → Command
  pdt_del : (topic : ℕ) → Command
  g1_fmt_add : (topic key size : ℕ) (pkt : List ℕ) (pkt_len offset len : ℕ) → Command
  g1_fmt_del : (topic key : ℕ) → Command
  g1_token_add : (topic key token_topic type offset len : ℕ) → Command
  g1_token_del : (topic key token_topic : ℕ) → Command
  dev_add : (port : ℕ) (addr : List ℕ) (addr_len link_type topic : ℕ) → Command
  dev_del : (link_type : ℕ) (addr : List ℕ) (addr_len : ℕ) → Command
  ignored : Command

-- The reading of one case of the switch, where the message is long enough.
abbrev pub when_long : ℕ → List ℕ → Run Command → Run Command
when_long n body read = if ltb (length body) n then ok ignored else read

-- The cases of the switch up to the function calls; `body` is the message behind its header.
unfoldable pub command_of : (type : ℕ) (body : List ℕ) → Run Command
command_of type body =
    if type == edge_pro_ack
    then when_long 36 body (do
      function ← load32_at 4 body
      scenerio_id ← load32_at 8 body
      ok (ack function scenerio_id))
    else if type == edge_pro_pdt_add
    then when_long 8 body
        (do topic ← ntohl_at 0 body; endian ← ntohl_at 4 body; ok (pdt_add topic endian))
    else if type == edge_pro_pdt_del
    then when_long 4 body (do topic ← ntohl_at 0 body; ok (pdt_del topic))
    else if type == edge_pro_g1_fmt_add
    then when_long 88 body (do
      pkt_len ← ntohl_at 64 body
      topic ← ntohl_at 68 body
      key ← ntohl_at 72 body
      size ← ntohl_at 76 body
      offset ← ntohl_at 80 body
      len ← ntohl_at 84 body
      ok (g1_fmt_add topic key size body pkt_len offset len))
    else if type == edge_pro_g1_fmt_del
    then when_long 8 body
        (do topic ← ntohl_at 0 body; key ← ntohl_at 4 body; ok (g1_fmt_del topic key))
    else if type == edge_pro_g1_token_add
    then when_long 24 body (do
      topic ← ntohl_at 0 body
      key ← ntohl_at 4 body
      token_topic ← ntohl_at 8 body
      ty ← ntohl_at 12 body
      offset ← ntohl_at 16 body
      len ← ntohl_at 20 body
      ok (g1_token_add topic key token_topic ty offset len))
    else if type == edge_pro_g1_token_del
    then when_long 12 body (do
      topic ← ntohl_at 0 body
      key ← ntohl_at 4 body
      token_topic ← ntohl_at 8 body
      ok (g1_token_del topic key token_topic))
    else if type == edge_pro_dev_add
    then when_long 80 body (do
      addr_len ← ntohl_at 64 body
      link_type ← ntohl_at 68 body
      port ← ntohl_at 72 body
      topic ← ntohl_at 76 body
      ok (dev_add port body addr_len link_type topic))
    else if type == edge_pro_dev_del
    then when_long 72 body (do
      addr_len ← ntohl_at 64 body
      link_type ← ntohl_at 68 body
      ok (dev_del link_type body addr_len))
    else ok ignored

abbrev pub with_catalog : Gateway → Catalog → Gateway
with_catalog g c = record g { edge = record g.edge { catalog = c } }

abbrev pub with_edge : Gateway → Edge → Gateway
with_edge g e = record g { edge = e }

-- The function calls of the switch.
unfoldable pub execute : Command → (now : ℕ) → Gateway → Run Gateway
execute (ack function scenerio_id) now g = ok (record g {
  ctl = record g.ctl {
    status = edge_status_online;
    function = function;
    scenerio_id = scenerio_id;
  };
})
execute (pdt_add topic endian) now g = ok (with_catalog g ((add_pdt topic endian g.edge.catalog).1))
execute (pdt_del topic) now g = do c ← del_pdt topic g.edge.catalog; ok (with_catalog g c)
execute (g1_fmt_add topic key size pkt pkt_len offset len) now g = do
  (_, c) ← add_g1_fmt topic key size pkt pkt_len offset len g.edge.catalog
  ok (with_catalog g c)
execute (g1_fmt_del topic key) now g = do
  c ← del_g1_fmt topic key g.edge.catalog
  ok (with_catalog g c)
execute (g1_token_add topic key token_topic type offset len) now g = do
  (_, c) ← add_g1_token topic key token_topic type offset len g.edge.catalog
  ok (with_catalog g c)
execute (g1_token_del topic key token_topic) now g = do
  c ← del_g1_token topic key token_topic g.edge.catalog
  ok (with_catalog g c)
execute (dev_add port addr addr_len link_type topic) now g = do
  (_, e) ← add_dev port addr addr_len link_type topic now g.edge
  ok (with_edge g e)
execute (dev_del link_type addr addr_len) now g = do
  e ← del_dev link_type addr addr_len g.edge
  ok (with_edge g e)
execute ignored now g = ok g

-- Returns the status of the call. The name of the type is read from a table with an entry for each
-- of the known types, and the type is not compared to its length.
unfoldable pub mgt_rcv_msg : (msg : List ℕ) (now : ℕ) → Gateway → Run (ℕ × Gateway)
mgt_rcv_msg msg now g = if ltb (length msg) 8 then ok (1, g) else do
  type ← load32_at 0 msg
  if leb edge_pro_butt type then fault out_of_bounds else do
    command ← command_of type (drop 8 msg)
    g' ← execute command now (record g { stat = record g.stat { timeout = 0 } })
    ok (0, g')
