-- ===== src/Tests/Sequences.antt =====
-- Operations one after the other.
use ece_lib.Base.{
  ◌<◌, ◌^◌, ltb, ltb→lt, ◌&&◌, Bool-cases, inl, inr, ℕ, ◌≡◌, refl, Bool, Option, List, [], ◌∷◌,
  ◌++◌, some, none, arith, true, drop, All, subst, sym, ◌∙◌, replicate,
}
use ece_lib.Machine.{fault, use_after_free, WhenOk, returns, at_ok, ok, malloc, Returns}
use ece_lib.HashMap.Keys.{int_key, int_cmp, int_hash_func, int_mix}
use ece_lib.HashMap.{
  HashMap, hash_map_init, hash_map_contains_key, hash_map_get, hash_map_put, find, assign,
  bucket_of, list_of,
}
use ece_lib.HashMap.Steps.{
  MapStep, puts, removes, Content, run_steps, after_steps, IsOrderly, Shows, init-Shows,
  run_steps-Shows, after_step,
}
use ece_lib.Wire.{htonl, load32_at, read_le, ntohl_at, read_be, store32}
use ece_lib.LinkedList.{linked_list_init, linked_list_prepend}
use ece_lib.Pdt.{Catalog, Pdt, add_pdt, get_pdt, pdt_init}
use ece_lib.G1Fmt.Start.{start}
use ece_lib.G1.{parse_msg}
use ece_lib.G1.Orphan.{parse_msg_orphan}
use ece_lib.G1Fmt.{del_pdt}
use ece_lib.HashMap.Put.{put-Written}
use ece_lib.HashMap.Walk.{init_empty}
use ece_lib.Dev.{with_memory, Dev, add_dev, add_new_dev, dev_init}
use ece_lib.Dev.Oid.{get_dev_oid-IsOid}
use ece_lib.Dev.Alive.{IsEdge}
use ece_lib.Life.Devices.{Reached-IsEdge}
use ece_lib.G1Fmt.Invariant.{IsCatalog}
use ece_lib.Mgt.{
  Gateway, with_edge, with_catalog, initial_control, mgt_init, command_of, execute, mgt_rcv_msg,
}
use ece_lib.Srv.{tlv}
use ece_lib.Srv.RoundTrip.{heard}
use ece_lib.Cli.{same_text, sscanf_u, scan_lu, scan_sign, scan_unsigned, clamped, scan_digits}
use ece_lib.Cli.Edge.{set_hello, run_edge, cmd_edge_hello, unless_zero}
use ece_lib.Life.{World, Step, command, message, Reached, begins, goes_on, edge_init}
use ece_lib.Life.Words.{IsByte}
use ece_lib.Life.Settings.{IsSettled, Reached-IsSettled}
use ece_lib.Life.Catalogs.{Careful, IsFair, Reached-IsCatalog}

-- A put, a put that replaces its value, one of another key, and a removal.
abbrev some_steps : List (MapStep ℕ ℕ)
some_steps = puts 5 50 ∷ puts 5 51 ∷ puts 8 80 ∷ removes 5 ∷ []

abbrev nothing : Content ℕ ℕ
nothing = record { at = λ j. none; count = 0 }

some_steps-IsOrderly : IsOrderly some_steps nothing
unfolding IsOrderly after_step int_cmp
some_steps-IsOrderly = (omega arith, (omega arith, (omega arith, (omega arith, refl, tt))))

run_steps-Shows_example :
    (m' : HashMap ℕ ℕ) × (run_steps some_steps (hash_map_init 2) ≡ some m')
    × Shows m' (after_steps some_steps nothing)
run_steps-Shows_example =
    run_steps-Shows some_steps (hash_map_init 2) nothing some_steps-IsOrderly
      (init-Shows 2 (omega arith))

abbrev at_start : World
at_start = record {
  client_ctl = initial_control;
  gateway = edge_init (1 ∷ 2 ∷ 3 ∷ 4 ∷ 5 ∷ 6 ∷ []) [];
}

-- "30"
abbrev slower : World
slower = record at_start {
  gateway = record at_start.gateway { ctl = record at_start.gateway.ctl { hello_interval = 30 } };
}

-- A product of topic 7.
abbrev add_seven : List ℕ
add_seven = tlv 2 8 (htonl 7 ++ htonl 1)

abbrev with_seven : World
with_seven = record slower {
  gateway = with_catalog (heard slower.gateway) ((add_pdt 7 1 slower.gateway.edge.catalog).1);
}

-- Every rule fails.
abbrev no_rule : List ℕ → Option Bool
no_rule text = none

slower_step : Step no_rule IsFair at_start slower
unfolding run_edge cmd_edge_hello same_text sscanf_u scan_lu scan_sign scan_unsigned clamped
    scan_digits unless_zero edge_init mgt_init initial_control
slower_step =
    command set_hello record { word = []; addr = []; num = 0; num' = 0 } ((51 ∷ 48 ∷ []) ∷ []) refl
      refl

abbrev are_bytes : List ℕ → Bool
are_bytes [] = true
are_bytes (b ∷ rest) = ltb b 256 && are_bytes rest

are_bytes-All : (bytes : List ℕ) → are_bytes bytes ≡ true → All IsByte bytes
are_bytes-All [] h = tt
are_bytes-All (b ∷ rest) h = elim (Bool-cases (ltb b 256)) [
  | inl small ↦ (ltb→lt b 256 small, are_bytes-All rest (rw small at h))
  | inr big ↦ absurd (ground (arith, rw big at h))
]

-- A message of bytes whose one command is allowed.
message-IsFair :
    (msg : List ℕ) (g : Gateway) (type : ℕ)
    → are_bytes msg ≡ true
    → load32_at 0 msg ≡ ok type
    → WhenOk (λ c. Careful c g.edge.catalog) (command_of type (drop 8 msg))
    → IsFair msg g
message-IsFair msg g type are loaded allowed = record {
  bytes = are_bytes-All msg are;
  careful = λ t c is_type is_command.
      let same : type ≡ t = at_ok {P = λ u. type ≡ u} (returns refl) (sym loaded ∙ is_type) in
      at_ok {P = λ c. Careful c g.edge.catalog}
        (subst (λ t. WhenOk (λ c. Careful c g.edge.catalog) (command_of t (drop 8 msg))) same
          allowed)
        is_command;
}

add_seven-IsFair : IsFair add_seven slower.gateway
unfolding htonl store32 load32_at read_le command_of ntohl_at read_be
add_seven-IsFair = message-IsFair add_seven slower.gateway 2 refl refl (returns tt)

with_seven_step : Step no_rule IsFair slower with_seven
unfolding mgt_rcv_msg load32_at read_le store32 htonl command_of ntohl_at read_be execute
with_seven_step = message add_seven 0 0 add_seven-IsFair refl refl

with_seven-Reached : Reached no_rule IsFair with_seven
with_seven-Reached =
    goes_on (goes_on (begins (1 ∷ 2 ∷ 3 ∷ 4 ∷ 5 ∷ 6 ∷ []) [] refl) slower_step) with_seven_step

Reached-IsSettled_example : IsSettled with_seven.gateway.ctl
Reached-IsSettled_example = Reached-IsSettled no_rule IsFair with_seven with_seven-Reached

Reached-IsCatalog_example : IsCatalog with_seven.gateway.edge.catalog
Reached-IsCatalog_example = Reached-IsCatalog no_rule with_seven with_seven-Reached

-- The device of four bytes of address, on port 3.
abbrev address : List ℕ
address = 0x20 ∷ 0xc7 ∷ 0xdd ∷ 0x11 ∷ replicate 60 0

abbrev request : List ℕ
request = address ++ (htonl 4 ++ (htonl 0 ++ (htonl 3 ++ htonl 7)))

abbrev add_device : List ℕ
add_device = tlv 8 80 request

add_device-IsFair : IsFair add_device with_seven.gateway
unfolding htonl store32 load32_at read_le command_of ntohl_at read_be
add_device-IsFair = message-IsFair add_device with_seven.gateway 8 refl refl (returns tt)

abbrev seven : Pdt
seven = record {
  addr = 1;
  topic = 7;
  endian = 1;
  attr_map = hash_map_init 4;
  fmt_map = hash_map_init 4;
}

seven_there : get_pdt 7 with_seven.gateway.edge.catalog ≡ some seven
unfolding get_pdt add_pdt edge_init mgt_init dev_init start hash_map_get hash_map_put hash_map_init
    find assign bucket_of list_of linked_list_init linked_list_prepend int_cmp int_hash_func int_mix
    malloc hash_map_contains_key pdt_init
seven_there = refl

seven_room : (malloc with_seven.gateway.edge.catalog.mem).0 ≡ true
unfolding add_pdt edge_init mgt_init dev_init start hash_map_contains_key hash_map_init bucket_of
    malloc pdt_init int_hash_func int_mix
seven_room = refl

added : Returns (add_dev 3 request 4 0 7 5 with_seven.gateway.edge) λ r. Unit {0}
unfolding add_dev
added =
    let (oid, _, run) = get_dev_oid-IsOid 0 request 4 (omega arith) (omega arith) (omega arith) in
    let e = with_seven.gateway.edge in
    (
      add_new_dev seven oid 3 5 (with_memory e (malloc e.catalog.mem).1),
      rw (add_dev, seven_there, run e.catalog.mem, seven_room) refl,
      tt,
    )

abbrev with_device : World
with_device = record with_seven { gateway = with_edge (heard with_seven.gateway) (added.0.1) }

with_device_step : Step no_rule IsFair with_seven with_device
unfolding mgt_rcv_msg load32_at read_le store32 htonl command_of ntohl_at read_be execute
with_device_step = message add_device 5 0 add_device-IsFair (rw (mgt_rcv_msg, added.1) refl) refl

Reached-IsEdge_example : IsEdge with_device.gateway.edge
Reached-IsEdge_example =
    Reached-IsEdge no_rule with_device (goes_on with_seven-Reached with_device_step)

abbrev only : Catalog
only = with_seven.gateway.edge.catalog

only-IsCatalog : IsCatalog only
only-IsCatalog = Reached-IsCatalog no_rule with_seven with_seven-Reached

only_seven : (j : ℕ) (q : Pdt) → j < 2 ^ 32 → get_pdt j only ≡ some q → q.addr ≡ seven.addr → j ≡ 7
unfolding get_pdt add_pdt edge_init mgt_init dev_init start hash_map_init bucket_of int_cmp
    int_hash_func int_mix malloc hash_map_contains_key pdt_init
only_seven j q h found same =
    let (v, none_there) = init_empty {V = Pdt} 16 j (omega arith) in
    let w = put-Written {V = Pdt} (hash_map_init 16) v 7 (omega arith) seven in
    elim (Bool-cases (int_key.same 7 j)) [
      | inl here ↦ sym ((int_key.same_iff 7 j (omega arith) h).0 here)
      | inr other ↦ absurd (ground (arith, w.reads j h, other, none_there, found))
    ]

abbrev orphan : Dev
orphan = record {
  oid = replicate 32 97;
  port = 3;
  attr_map = hash_map_init 16;
  ts = 0;
  update_ts = 0;
  report_ts = 0;
  pdt = 1;
}

parse_msg_orphan_example : Returns (del_pdt 7 only) λ c'.
    parse_msg no_rule orphan
      (0 ∷ 0 ∷ 0 ∷ 9 ∷ 1 ∷ 2 ∷ 5 ∷ 6 ∷ [])
      8
      9
      with_seven.gateway.ctl
      (record with_seven.gateway.edge { catalog = c' })
    ≡ fault use_after_free
parse_msg_orphan_example =
    parse_msg_orphan 7 only seven only-IsCatalog (omega arith) seven_there only_seven no_rule orphan
      0 0 0 9 1 2 (5 ∷ 6 ∷ []) 8 9 with_seven.gateway.ctl with_seven.gateway.edge refl (omega arith)
      (omega arith) (omega arith)
