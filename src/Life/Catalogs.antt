-- ===== src/Life/Catalogs.antt =====
-- The catalogue of src/pdt.c, src/g1_fmt.c and src/attr.c, over the course of the program.
use ece_lib.Base.{
  ℕ, ◌<◌, ◌≤◌, ◌≡◌, sym, subst, Bool, Option, none, some, List, length, drop, ltb, leb, arith, All,
}
use ece_lib.Machine.{
  ok, WhenOk, faults, returns, run-WhenOk, then-WhenOk, if-WhenOk, at_ok, Returns-WhenOk,
}
use ece_lib.Wire.{load32_at}
use ece_lib.Token.{G1Fmt}
use ece_lib.Token.Layout.{uses}
use ece_lib.Pdt.{Pdt, Catalog, get_pdt}
use ece_lib.G1Fmt.{get_g1_fmt}
use ece_lib.G1Fmt.Invariant.{IsCatalog, Room}
use ece_lib.G1Fmt.Start.{init-IsCatalog}
use ece_lib.G1Fmt.AddToken.{mem-IsCatalog, add_g1_token-IsCatalog}
use ece_lib.G1Fmt.DelToken.{del_g1_token-IsCatalog}
use ece_lib.G1Fmt.Formats.{add_pdt-IsCatalog, add_g1_fmt-IsCatalog}
use ece_lib.G1Fmt.DelFormat.{del_g1_fmt-IsCatalog}
use ece_lib.G1Fmt.DelProduct.{del_pdt-IsCatalog}
use ece_lib.Dev.{dev_init}
use ece_lib.Mgt.Protocol.{edge_pro_butt}
use ece_lib.Mgt.{
  Gateway, mgt_init, Command, ack, pdt_add, pdt_del, g1_fmt_add, g1_fmt_del, g1_token_add,
  g1_token_del, dev_add, dev_del, ignored, command_of, execute, mgt_rcv_msg,
}
use ece_lib.Life.Kept.{add_dev-Kept, del_dev-Kept, edge_rcv_pkt-Kept}
use ece_lib.Life.Second.{do_mgt_periodic-Kept}
use ece_lib.Life.Words.{AreWords, IsByte, command_of-AreWords, All-drop}
use ece_lib.Life.{
  World, Step, command, message, second, packet, Reached, begins, goes_on, edge_init,
}

-- What the server has to respect, because the client does not check it: a format is added under a key
-- that is free, with a packet that fits in the client's field; a token is added while no counter is at
-- its end, and one is deleted from a format only where it is there.
abbrev pub Careful : Command → Catalog → Type 0
Careful (g1_fmt_add topic key size pkt n offset len) c =
    n ≤ 128 × n ≤ length pkt × get_g1_fmt topic key c ≡ none
Careful (g1_token_add topic key token_topic type offset len) c =
    (p : Pdt) → get_pdt topic c ≡ some p → Room c p token_topic
Careful (g1_token_del topic key token_topic) c =
    (p : Pdt) (fmt : G1Fmt)
    → get_g1_fmt topic key c ≡ some (p, fmt)
    → 0 < uses token_topic fmt.token
Careful (pdt_add topic endian) c = Unit
Careful (pdt_del topic) c = Unit
Careful (g1_fmt_del topic key) c = Unit
Careful (ack function scenerio_id) c = Unit
Careful (dev_add port addr n type topic) c = Unit
Careful (dev_del type addr n) c = Unit
Careful ignored c = Unit

-- The message is of bytes, and what it asks for respects that.
pub record IsFair (msg : List ℕ) (g : Gateway) : Type 0 where
  pub bytes : All IsByte msg
  pub careful :
      (type : ℕ) (c : Command)
      → load32_at 0 msg ≡ ok type
      → command_of type (drop 8 msg) ≡ ok c
      → Careful c g.edge.catalog

execute-IsCatalog :
    (c : Command) (now : ℕ) (g : Gateway)
    → IsCatalog g.edge.catalog
    → AreWords c
    → Careful c g.edge.catalog
    → WhenOk (λ g'. IsCatalog g'.edge.catalog) (execute c now g)
unfolding execute
execute-IsCatalog (ack function scenerio_id) now g v w fair = returns v
execute-IsCatalog (pdt_add topic endian) now g v w fair =
    returns ((add_pdt-IsCatalog topic endian g.edge.catalog v w).0)
execute-IsCatalog (pdt_del topic) now g v w fair =
    then-WhenOk (Returns-WhenOk (del_pdt-IsCatalog topic 0 g.edge.catalog v w (omega arith)))
      λ c (v', _, _). returns v'
execute-IsCatalog (g1_fmt_add topic key size pkt n offset len) now g v (p, q, r)
      (fits, given, free) =
    then-WhenOk
      (Returns-WhenOk (
        add_g1_fmt-IsCatalog topic key size pkt n offset len g.edge.catalog v p q (omega arith) fits
          given free))
      λ r v'. returns v'
execute-IsCatalog (g1_fmt_del topic key) now g v (p, q) fair =
    then-WhenOk
      (Returns-WhenOk (del_g1_fmt-IsCatalog topic key 0 g.edge.catalog v p q (omega arith)))
      λ c (v', _, _, _). returns v'
execute-IsCatalog (g1_token_add topic key token_topic type offset len) now g v (p, q, r, s, t)
      room =
    then-WhenOk
      (Returns-WhenOk (
        add_g1_token-IsCatalog topic key token_topic type offset len g.edge.catalog v p q r
          (omega arith) room))
      λ r v'. returns v'
execute-IsCatalog (g1_token_del topic key token_topic) now g v (p, q, r) has =
    then-WhenOk
      (Returns-WhenOk (del_g1_token-IsCatalog topic key token_topic g.edge.catalog v p q r has))
      λ c v'. returns v'
execute-IsCatalog (dev_add port addr n type topic) now g v w fair =
    then-WhenOk (add_dev-Kept IsCatalog mem-IsCatalog port addr n type topic now g.edge v)
      λ r v'. returns v'
execute-IsCatalog (dev_del type addr n) now g v w fair =
    then-WhenOk (del_dev-Kept IsCatalog mem-IsCatalog type addr n g.edge v) λ e v'. returns v'
execute-IsCatalog ignored now g v w fair = returns v

mgt_rcv_msg-IsCatalog :
    (msg : List ℕ) (now : ℕ) (g : Gateway)
    → IsCatalog g.edge.catalog
    → IsFair msg g
    → WhenOk (λ (_, g'). IsCatalog g'.edge.catalog) (mgt_rcv_msg msg now g)
unfolding mgt_rcv_msg
mgt_rcv_msg-IsCatalog msg now g v fair = if-WhenOk (ltb (length msg) 8) (returns v) (
    run-WhenOk (load32_at 0 msg) λ type is_type. if-WhenOk (leb edge_pro_butt type) faults (
      run-WhenOk (command_of type (drop 8 msg)) λ c is_command.
        let words =
          at_ok (command_of-AreWords type (drop 8 msg) (All-drop 8 msg fair.bytes)) is_command in
        then-WhenOk
          (execute-IsCatalog c now (record g { stat = record g.stat { timeout = 0 } }) v words
            (fair.careful type c is_type is_command))
          λ g' v'. returns v'))

step-IsCatalog :
    (expr : List ℕ → Option Bool) {w w' : World}
    → Step expr IsFair w w'
    → IsCatalog w.gateway.edge.catalog
    → IsCatalog w'.gateway.edge.catalog
step-IsCatalog expr {w} (command c stack argv runs rest) v =
    subst (λ (g : Gateway). IsCatalog g.edge.catalog) (sym rest) v
step-IsCatalog expr {w} (message msg now code fair runs rest) v =
    at_ok (mgt_rcv_msg-IsCatalog msg now w.gateway v fair) runs
step-IsCatalog expr {w} (second junk now out runs rest) v =
    (at_ok (do_mgt_periodic-Kept IsCatalog mem-IsCatalog junk now w.gateway v) runs).0
step-IsCatalog expr {w} (packet junk type port pkt size now code out runs rest) v =
    (at_ok (edge_rcv_pkt-Kept IsCatalog mem-IsCatalog expr junk type port pkt size now w.gateway v)
      runs).0

-- In each state that the program comes to from its start, by commands of the operator, messages that
-- respect what the client does not check, the work of the seconds and packets of devices, the catalogue
-- is well formed: the maps are, the tokens of a format do not overlap, and the references that are
-- counted are those of the tokens that are there.
pub Reached-IsCatalog :
    (expr : List ℕ → Option Bool) (w : World)
    → Reached expr IsFair w
    → IsCatalog w.gateway.edge.catalog
unfolding edge_init mgt_init dev_init
Reached-IsCatalog expr w (begins mac mem e) =
    subst (λ (g : Gateway). IsCatalog g.edge.catalog) (sym e) (init-IsCatalog mem 0).0
Reached-IsCatalog expr w (goes_on {w = u} before step) =
    step-IsCatalog expr step (Reached-IsCatalog expr u before)
