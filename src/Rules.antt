-- ===== src/Rules.antt =====
-- The rule engine of src/dev.c, `check_rule_engine`, and the packet that it sends, `send_pkt_to_device`.
--
-- It prints the values of a device and has them evaluated by the expression library, which is the
-- parameter `expr`: `none` is a syntax error, otherwise it tells whether the value is not 0. The Lua
-- script that runs after it only prints.
use ece_lib.Base.{
  ℕ, ◌+◌, ◌%◌, Bool, Option, none, some, List, [], ◌∷◌, ◌++◌, ◌==◌, leb, if◌then◌else◌, length,
  take, replicate,
}
use ece_lib.Machine.{Run, ok, fault, use_after_free, out_of_bounds, ◌>>=◌, memcpy}
use ece_lib.Wire.{htonl}
use ece_lib.HashMap.Keys.{int_key, str_key}
use ece_lib.HashMap.{HashMap, hash_map_work}
use ece_lib.Token.{G1Fmt}
use ece_lib.Pdt.{Pdt, Catalog}
use ece_lib.G1Fmt.{get_g1_fmt}
use ece_lib.Dev.{AttrVal, Dev, hex_fixed}
use ece_lib.Mgt.Periodic.{Out, to_device}

-- The product at the address, where it has not been freed.
unfoldable pub pdt_at : ℕ → HashMap ℕ Pdt → Option Pdt
pdt_at addr pdts =
    hash_map_work pdts (λ found (_, p). if p.addr == addr then some p else found) none

-- `dev->pdt->topic`
unfoldable pub pdt_topic : Dev → Catalog → Run ℕ
pdt_topic d c = elim (pdt_at d.pdt c.pdts) [ none ↦ fault use_after_free | some p ↦ ok p.topic ]

-- The packet of 256 bytes: two bytes of header, four of address, six of message header, and the
-- data of the format with the value laid over it.
unfoldable pub device_pkt : G1Fmt → (key : ℕ) (value : List ℕ) → Run (List ℕ)
device_pkt fmt key value = do
  let front = 0x83 ∷ 0x41 ∷ 0x20 ∷ 0xc7 ∷ 0xdd ∷ 0x11 ∷ htonl key ++ (0x01 ∷ fmt.pkt_len % 256 ∷ [])
  pkt ← memcpy (front ++ replicate 244 0) 12 fmt.pkt fmt.size
  memcpy pkt (12 + fmt.offset) value fmt.len

-- Returns the status, and what is sent.
unfoldable pub send_pkt_to_device : Dev → (key : ℕ) (value : List ℕ) → Catalog → Run (ℕ × List Out)
unfolding pdt_topic pdt_at device_pkt
send_pkt_to_device d key value c = do
  topic ← pdt_topic d c
  elim (get_g1_fmt topic key c) [
    | none ↦ ok (1, [])
    | some (_, fmt) ↦ do
      pkt ← device_pkt fmt key value
      ok (0, to_device d.port (take (12 + fmt.pkt_len) pkt) ∷ [])
  ]

-- One value: "a%8.8x=%s,"
unfoldable pub rule_value : AttrVal → List ℕ
rule_value attr = (97 ∷ hex_fixed 8 attr.topic) ++ (61 ∷ attr.str ++ (44 ∷ []))

-- `rule_buf` before the formula is put behind it. (`lua_buf` has a newline for the last character, and
-- so the same length.)
unfoldable pub rule_values : Dev → List ℕ
unfolding rule_value
rule_values d = hash_map_work d.attr_map (λ text (_, attr). text ++ rule_value attr) []

-- "(a00000002 + a00000001 + a00000003)>1"
abbrev pub formula : List ℕ
formula =
    40 ∷ 97 ∷ 48 ∷ 48 ∷ 48 ∷ 48 ∷ 48 ∷ 48 ∷ 48 ∷ 50 ∷ 32 ∷ 43 ∷ 32 ∷ 97 ∷ 48 ∷ 48 ∷ 48 ∷ 48 ∷ 48
    ∷ 48 ∷ 48 ∷ 49 ∷ 32 ∷ 43 ∷ 32 ∷ 97 ∷ 48 ∷ 48 ∷ 48 ∷ 48 ∷ 48 ∷ 48 ∷ 48 ∷ 51 ∷ 41 ∷ 62 ∷ 49 ∷ []

-- The script has 73 characters, which are put behind the values in a buffer of 512 bytes.
unfoldable pub check_rule_engine : (expr : List ℕ → Option Bool) → Dev → Catalog → Run (List Out)
unfolding send_pkt_to_device rule_values
check_rule_engine expr d c =
    if leb d.update_ts d.report_ts
    then ok []
    else let values = rule_values d in
      if leb 512 (length (values ++ formula))
      then fault out_of_bounds
      else elim (expr (values ++ formula)) [
        | none ↦ ok []
        | some passed ↦ do
          (_, out) ←
              if passed
              then send_pkt_to_device d 0x10000002 (0xFF ∷ 0xFF ∷ 0xFE ∷ []) c
              else ok (0, [])
          if leb 512 (length values + 73) then fault out_of_bounds else ok out
      ]
