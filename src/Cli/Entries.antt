-- ===== src/Cli/Entries.antt =====
-- The commands of app/cli_main.c as an operator enters them, the messages of srv/srv_main.c that they
-- end in, and what src/mgt.c makes of these.
use ece_lib.Base.{ℕ, ◌^◌, ◌<◌, ◌≤◌, ◌≡◌, List, [], ◌∷◌, ◌++◌, length, All, drop, replicate}
use ece_lib.Wire.{decimal}
use ece_lib.Md5.{hex_text}
use ece_lib.Srv.Requests.{
  Request, wants_pdt, drops_pdt, wants_dev, drops_dev, drops_fmt, wants_token, drops_token,
}
use ece_lib.Cli.{
  Text, Stack, ServerCommand, product_add, product_delete, device_add, device_delete, format_delete,
  token_add, token_delete,
}
use ece_lib.Cli.Words.{typed_word}

-- What an operator wants done.
pub data Entry : Type 0 where
  enter_pdt : (topic endian : ℕ) → Entry
  delete_pdt : (topic : ℕ) → Entry
  enter_dev : (addr : List ℕ) (topic link_type port : ℕ) → Entry
  delete_dev : (addr : List ℕ) (link_type : ℕ) → Entry
  delete_fmt : (topic key : ℕ) → Entry
  enter_token : (topic key token_topic type offset len : ℕ) → Entry
  delete_token : (topic key token_topic : ℕ) → Entry

-- The command that is entered.
unfoldable pub entered : Entry → ServerCommand
entered (enter_pdt topic endian) = product_add
entered (delete_pdt topic) = product_delete
entered (enter_dev addr topic link_type port) = device_add
entered (delete_dev addr link_type) = device_delete
entered (delete_fmt topic key) = format_delete
entered (enter_token topic key token_topic type offset len) = token_add
entered (delete_token topic key token_topic) = token_delete

-- Its arguments: topics, keys and addresses in hexadecimal, the others in decimal.
unfoldable pub typed : Entry → List Text
typed (enter_pdt topic endian) = typed_word topic ∷ decimal endian ∷ []
typed (delete_pdt topic) = typed_word topic ∷ []
typed (enter_dev addr topic link_type port) =
    hex_text addr ∷ typed_word topic ∷ decimal link_type ∷ decimal port ∷ []
typed (delete_dev addr link_type) = hex_text addr ∷ decimal link_type ∷ []
typed (delete_fmt topic key) = typed_word topic ∷ typed_word key ∷ []
typed (enter_token topic key token_topic type offset len) =
    typed_word topic
    ∷ typed_word key
    ∷ typed_word token_topic
    ∷ decimal type
    ∷ decimal offset
    ∷ decimal len
    ∷ []
typed (delete_token topic key token_topic) =
    typed_word topic ∷ typed_word key ∷ typed_word token_topic ∷ []

-- An array of 64 bytes that begins with the address.
abbrev pub padded_address : (addr old : List ℕ) → List ℕ
padded_address addr old = addr ++ drop (length addr) old

-- The call of the server that is wanted. An address stands in front of an array of 64 bytes.
unfoldable pub request_of : Stack → Entry → Request
request_of stack (enter_pdt topic endian) = wants_pdt topic endian
request_of stack (delete_pdt topic) = drops_pdt topic
request_of stack (enter_dev addr topic link_type port) =
    wants_dev (padded_address addr (replicate 64 0)) (length addr) topic link_type port
request_of stack (delete_dev addr link_type) =
    drops_dev (padded_address addr stack.addr) (length addr) link_type
request_of stack (delete_fmt topic key) = drops_fmt topic key
request_of stack (enter_token topic key token_topic type offset len) =
    wants_token topic key token_topic type offset len
request_of stack (delete_token topic key token_topic) = drops_token topic key token_topic

abbrev Word : ℕ → Type 0
Word n = n < 2 ^ 32

-- At most 64 bytes.
abbrev Address : List ℕ → Type 0
Address addr = All (λ b. b < 256) addr × length addr ≤ 64

-- What the commands accept: numbers of 32 bits, an endianness of 1 or 2, a token of a byte at least,
-- and an address of at most 64 bytes.
unfoldable pub IsEntry : Entry → Type 0
IsEntry (enter_pdt topic endian) = Word topic × 0 < endian × endian ≤ 2
IsEntry (delete_pdt topic) = Word topic
IsEntry (enter_dev addr topic link_type port) =
    Address addr × Word topic × Word link_type × Word port
IsEntry (delete_dev addr link_type) = Address addr × Word link_type
IsEntry (delete_fmt topic key) = Word topic × Word key
IsEntry (enter_token topic key token_topic type offset len) =
    Word topic × Word key × Word token_topic × Word type × Word offset × Word len × 0 < len
IsEntry (delete_token topic key token_topic) = Word topic × Word key × Word token_topic

-- The sizes of the local variables.
pub record IsStack (stack : Stack) : Type 0 where
  pub four : length stack.word ≡ 4
  pub array : length stack.addr ≡ 64
