-- ===== src/Mgt/Periodic.antt =====
-- The messages that src/mgt.c sends, and `do_mgt_periodic`.
use ece_lib.Base.{ℕ, ◌+◌, ◌%◌, ◌&&◌, List, [], ◌∷◌, ◌++◌, ◌==◌, leb, if◌then◌else◌, take, drop, map}
use ece_lib.Machine.{Run, ok, fault, division_by_zero, ◌>>=◌, Memory, malloc, memcpy, u32, u64}
use ece_lib.Wire.{store32, htonl}
use ece_lib.Dev.Ageing.{Report, do_device_update, do_device_ageing}
use ece_lib.Mgt.Protocol.{
  edge_status_offline, edge_status_online, edge_up_mode_attr_periodic, edge_pro_hello, edge_pro_pkt,
}
use ece_lib.Mgt.{Gateway}

-- What goes out: a message to the server or a report to the application, by MQTT, or a packet to a
-- device, by the function that `reg_app_snd` has registered.
pub data Out : Type 0 where
  to_server : List ℕ → Out
  to_app : Report → Out
  to_device : (port : ℕ) (pkt : List ℕ) → Out

abbrev pub with_mem : Gateway → Memory → Gateway
with_mem g mem = record g { edge = record g.edge { catalog = record g.edge.catalog { mem = mem } } }

-- The status and the function are written of the control block, all but the timeout of the
-- statistics; the other fields go out as `malloc` left them.
unfoldable pub hello_msg : (junk : List ℕ) → Gateway → List ℕ
hello_msg junk g =
    store32 edge_pro_hello
    ++ (store32 50
        ++ (store32 g.ctl.status
            ++ (store32 g.ctl.function
                ++ (take 28 junk
                    ++ (take 6 g.stat.mac
                        ++ (store32 g.stat.link_type ++ take 4 (drop 28 junk)))))))

unfoldable pub mgt_send_hello_msg : (junk : List ℕ) → Gateway → List Out × Gateway
unfolding hello_msg
mgt_send_hello_msg junk g =
    let (got, mem') = malloc g.edge.catalog.mem in
    let g' : Gateway = with_mem g mem' in
    let missed : ℕ =
      if g.ctl.status == edge_status_online then u32 (g.stat.timeout + 1) else g.stat.timeout in
    if got
    then (
      to_server (hello_msg junk g) ∷ [],
      record g' { stat = record g.stat { timeout = missed } },
    )
    else ([], g')

-- `junk` is what the array `pkt` of 256 bytes holds before the copy.
unfoldable pub mgt_send_pkt :
    (junk : List ℕ) (status port : ℕ) (data_bytes : List ℕ) (len : ℕ)
    → Memory
    → Run (List Out × Memory)
mgt_send_pkt junk status port data_bytes len mem =
    let (got, mem') = malloc mem in
    if got
    then (do
      pkt ← memcpy (take 256 junk) 0 data_bytes len
      ok (
        to_server (
              store32 edge_pro_pkt
              ++ (store32 268 ++ (htonl status ++ (htonl port ++ (pkt ++ htonl len)))))
            ∷ [],
        mem',
      ))
    else ok ([], mem')

-- The second statement: the client goes offline after too many hellos without an answer.
unfoldable pub check_timeout : Gateway → Gateway
check_timeout g =
    if leb g.ctl.timeout_num g.stat.timeout && (g.ctl.status == edge_status_online)
    then record g { ctl = record g.ctl { status = edge_status_offline } }
    else g

unfoldable pub do_mgt_periodic : (junk : List ℕ) (now : ℕ) → Gateway → Run (List Out × Gateway)
unfolding mgt_send_hello_msg check_timeout
do_mgt_periodic junk now g =
    let (hello, g₁) =
      if g.tick % g.ctl.hello_interval == 0 then mgt_send_hello_msg junk g else ([], g) in
    let g₂ : Gateway = check_timeout g₁ in
    if g.ctl.hello_interval == 0 then fault division_by_zero else do
      e ← do_device_ageing g₂.ctl.dev_age_interval now g₂.edge
      let (e', reports) =
          if g₂.ctl.up_mode == edge_up_mode_attr_periodic
          then do_device_update g₂.ctl.scenerio_id g₂.ctl.up_interval now e
          else (e, [])
      ok (hello ++ map to_app reports, record g₂ { edge = e'; tick = u64 (g₂.tick + 1) })
