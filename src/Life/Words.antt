-- ===== src/Life/Words.antt =====
-- The numbers that src/mgt.c reads out of a message have 32 bits.
use ece_lib.Base.{ℕ, zero, suc, ◌^◌, ◌<◌, List, [], ◌∷◌, arith, drop, All, ltb, ◌==◌, length}
use ece_lib.Machine.{Run, WhenOk, faults, returns, bind-WhenOk, then-WhenOk, if-WhenOk}
use ece_lib.Wire.{read_be, ntohl_at, load32_at}
use ece_lib.Mgt.Protocol.{
  edge_pro_ack, edge_pro_pdt_add, edge_pro_pdt_del, edge_pro_g1_fmt_add, edge_pro_g1_fmt_del,
  edge_pro_g1_token_add, edge_pro_g1_token_del, edge_pro_dev_add, edge_pro_dev_del,
}
use ece_lib.Mgt.{
  Command, ack, pdt_add, pdt_del, g1_fmt_add, g1_fmt_del, g1_token_add, g1_token_del, dev_add,
  dev_del, ignored, when_long, command_of,
}

abbrev pub Word : ℕ → Type 0
Word n = n < 2 ^ 32

abbrev pub IsByte : ℕ → Type 0
IsByte b = b < 256

read_be-Word : (bytes : List ℕ) → All IsByte bytes → WhenOk Word (read_be 4 0 bytes)
unfolding read_be
read_be-Word [] all = faults
read_be-Word (a ∷ []) all = faults
read_be-Word (a ∷ b ∷ []) all = faults
read_be-Word (a ∷ b ∷ c ∷ []) all = faults
read_be-Word (a ∷ b ∷ c ∷ d ∷ bytes) (p, (q, (r, (s, all)))) = returns (omega arith)

pub All-drop : (n : ℕ) (bytes : List ℕ) → All IsByte bytes → All IsByte (drop n bytes)
All-drop zero bytes all = all
All-drop (suc n) [] all = tt
All-drop (suc n) (b ∷ bytes) (p, all) = All-drop n bytes all

ntohl_at-Word : (i : ℕ) (bytes : List ℕ) → All IsByte bytes → WhenOk Word (ntohl_at i bytes)
unfolding ntohl_at
ntohl_at-Word i bytes all = read_be-Word (drop i bytes) (All-drop i bytes all)

-- The topics, keys and sizes of a command about the catalogue.
abbrev pub AreWords : Command → Type 0
AreWords (pdt_add topic endian) = Word topic
AreWords (pdt_del topic) = Word topic
AreWords (g1_fmt_add topic key size pkt n offset len) = Word topic × Word key × Word size
AreWords (g1_fmt_del topic key) = Word topic × Word key
AreWords (g1_token_add topic key token_topic type offset len) =
    Word topic × Word key × Word token_topic × Word offset × Word len
AreWords (g1_token_del topic key token_topic) = Word topic × Word key × Word token_topic
AreWords (ack function scenerio_id) = Unit
AreWords (dev_add port addr n type topic) = Unit
AreWords (dev_del type addr n) = Unit
AreWords ignored = Unit

when_long-AreWords :
    (n : ℕ) (body : List ℕ) (read : Run Command)
    → WhenOk AreWords read
    → WhenOk AreWords (when_long n body read)
when_long-AreWords n body read w = if-WhenOk (ltb (length body) n) (returns tt) w

pub command_of-AreWords :
    (type : ℕ) (body : List ℕ) → All IsByte body → WhenOk AreWords (command_of type body)
unfolding command_of
command_of-AreWords type body all =
    if-WhenOk (type == edge_pro_ack)
      (when_long-AreWords 36 body _
        (bind-WhenOk (load32_at 4 body) λ f. bind-WhenOk (load32_at 8 body) λ s. returns tt))
      (if-WhenOk (type == edge_pro_pdt_add)
        (when_long-AreWords 8 body _
          (then-WhenOk (word 0) λ topic p. bind-WhenOk (ntohl_at 4 body) λ e. returns p))
        (if-WhenOk (type == edge_pro_pdt_del)
          (when_long-AreWords 4 body _ (then-WhenOk (word 0) λ topic p. returns p))
          (if-WhenOk (type == edge_pro_g1_fmt_add)
            (when_long-AreWords 88 body _ (
              bind-WhenOk (ntohl_at 64 body) λ n. then-WhenOk (word 68) λ topic p.
                then-WhenOk (word 72) λ key q. then-WhenOk (word 76) λ size r.
                  bind-WhenOk (ntohl_at 80 body)
                    λ offset. bind-WhenOk (ntohl_at 84 body) λ len. returns (p, q, r)))
            (if-WhenOk (type == edge_pro_g1_fmt_del)
              (when_long-AreWords 8 body _
                (then-WhenOk (word 0) λ topic p. then-WhenOk (word 4) λ key q. returns (p, q)))
              (if-WhenOk (type == edge_pro_g1_token_add)
                (when_long-AreWords 24 body _ (
                  then-WhenOk (word 0) λ topic p. then-WhenOk (word 4) λ key q.
                    then-WhenOk (word 8) λ token r. bind-WhenOk (ntohl_at 12 body) λ ty.
                      then-WhenOk (word 16)
                        λ offset s. then-WhenOk (word 20) λ len t. returns (p, q, r, s, t)))
                (if-WhenOk (type == edge_pro_g1_token_del)
                  (when_long-AreWords 12 body _ (
                    then-WhenOk (word 0) λ topic p.
                      then-WhenOk (word 4)
                        λ key q. then-WhenOk (word 8) λ token r. returns (p, q, r)))
                  (if-WhenOk (type == edge_pro_dev_add)
                    (when_long-AreWords 80 body _ (
                      bind-WhenOk (ntohl_at 64 body) λ n. bind-WhenOk (ntohl_at 68 body) λ l.
                        bind-WhenOk (ntohl_at 72 body)
                          λ p. bind-WhenOk (ntohl_at 76 body) λ t. returns tt))
                    (if-WhenOk (type == edge_pro_dev_del)
                      (when_long-AreWords 72 body _ (
                        bind-WhenOk (ntohl_at 64 body)
                          λ n. bind-WhenOk (ntohl_at 68 body) λ l. returns tt))
                      (returns tt)))))))))
  where
    word : (i : ℕ) → WhenOk Word (ntohl_at i body)
    word i = ntohl_at-Word i body all
