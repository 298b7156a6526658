-- ===== src/Lib.antt =====
-- Verification of the edge compute library: a client on a gateway that takes packets of devices,
-- turns them into attribute values by formats that a server sends, and reports the values.
--
-- The server (srv/srv_main.c) sends messages by MQTT. The client handles them (src/mgt.c): they add
-- and delete products (src/pdt.c), the packet formats of a product and the tokens of a format
-- (src/g1_fmt.c), and devices (src/dev.c). A token names an attribute (src/attr.c), which is counted
-- by the products that refer to it, as is the product's own record of it. A packet comes in by
-- edge_rcv_pkt (src/g1.c): the address gives the identifier of the device (an MD5 digest, lib/md5.c),
-- the topic the format of its product, and each token a value, which is stored in the device and
-- reported; then the rule engine may send a packet back. All of this stands in hash maps
-- (lib/hash_map.c) on linked lists (lib/linked_list.c). An operator types commands (app/cli_main.c): they
-- call the server, set the control blocks, or hand a packet to the loop of app/main.c, which gives it to
-- edge_rcv_pkt.
--
-- The modules, and the code that each is about:
--   Base              names, Boolean tests and lists for all others
--   Machine           faults, malloc, memcpy and machine words
--   Wire              htonl, ntohl, plain loads and stores, and "%lu"
--   LinkedList        lib/linked_list.c
--   HashMap           lib/hash_map.c; Keys has the comparators and hash functions of inc/hash_map.h,
--                     Invariant what every map keeps, Put, Remove and Walk the operations, Sum
--                     sums over the values, by which references are counted, Steps a map seen as
--                     a function, Each what holds of all pairs
--   Attr, Pdt         src/attr.c and src/pdt.c; Refs and AddDel their reference counts
--   Token             the tokens of a format; Layout where they lie
--   G1Fmt             src/g1_fmt.c and del_pdt; Invariant the balance of all references, Start,
--                     AddToken, DelToken, Formats, DelFormat and DelProduct the operations
--   Md5               lib/md5.c; Padding the padding and the shape of the text
--   Dev               src/dev.c: devices; Values their values, Ageing the periodic work, Oid the
--                     identifiers, Stores and Bounds what becomes of a value; Alive, Order, Kept,
--                     Deleted and Updated what every operation keeps of the devices and their order
--                     of age, Clear the end of a device's values, Live their products, Aged and Exact
--                     the ageing
--   Mgt               src/mgt.c: messages received; Protocol the constants of inc/mgt.h, Periodic the
--                     messages sent and the work of every second, Offline and InTime
--                     the missed answers
--   Srv               the messages of srv/srv_main.c; RoundTrip, Arrays, Devices and Formats what
--                     the client makes of them, Requests all of them together; Receive the messages
--                     that the server gets, Hello the answer to a hello
--   Rules             the rule engine of src/dev.c, and the packet that it sends
--   G1                src/g1.c; Address and Status its results, Devices what packets leave of
--                     the devices, Orphan the devices of a product that has been deleted
--   Misc              lib/misc.c: packets printed, hexadecimal digits read; Lines, Digits and Buffer
--   Cli               app/cli_main.c: arguments and the commands of the server; Scan and Words how
--                     arguments are read, Entries commands up to the client's function, Edge the
--                     settings, Packets the packets that are handed over and the loop of app/main.c
--                     (Handed, Stored), Console the table of commands, Session what is not registered
--   Life              the steps of the whole program; Kept and Second what packets and seconds leave
--                     alone, Words what a message holds, Settings, Catalogs and Devices what holds in
--                     every state
--   Tests             the theorems at concrete inputs
--
-- A structure is a record, and a global variable a field of the state that an operation takes and
-- returns: Catalog (attributes and products), Edge (with the devices) and Gateway (with the control
-- block). An object is stored in the map that owns it, and a write through a pointer is a
-- hash_map_put under its key; a device's pointer to its product is an address, so that it can
-- outlive the product. A read through NULL, a use of freed memory and an access beyond a buffer end a
-- run in a fault. A packet is the memory from its pointer on, to the end of the array that it lies in,
-- with the length that the caller gives. Whether a call of malloc succeeds is decided by a list of outcomes, so that each
-- error path is covered. A w-bit counter wraps at 2 ^ w.
--
-- Bounds: the loop of MD5 that pads a message runs on 63 steps of fuel, which reach the next number
-- that is 56 modulo 64 from everywhere; the rounds and chunks are counted by the source; decimal
-- digits run on 20 steps, which serve every number below 2 ^ 64. The loop that
-- prints a packet runs on as many steps as the packet has bytes, which is enough. All other recursions
-- follow a list or a count that the source gives.
--
-- Not modelled: the text that is printed except for packets, the threads, the lock and the sockets, the
-- file of recorded packets, lib/memory.c, and how libcli splits a line and finds a command by its words.
-- The copies of libcli, cJSON and expr, the mosquitto library and Lua are other projects' code: the rule
-- engine takes the evaluation of an expression as a parameter, a command the content of a file, and what
-- is sent is returned as a value. time gives one value in the course of one call. The padding bytes that
-- malloc leaves in messages and what uninitialised local variables hold are parameters.
mod Base
pub mod LinkedList
pub mod HashMap
pub mod Machine
pub mod Wire
pub mod Attr
pub mod Token
pub mod Pdt
pub mod G1Fmt
pub mod Md5
pub mod Misc
pub mod Cli
pub mod Life
pub mod Dev
pub mod Mgt
pub mod Srv
pub mod Rules
pub mod G1
mod Tests
