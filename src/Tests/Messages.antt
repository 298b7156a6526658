-- ===== src/Tests/Messages.antt =====
-- Messages of the server, with memory to send them from.
use ece_lib.Base.{ℕ, ◌≡◌, refl, List, [], ◌∷◌, true}
use ece_lib.Machine.{malloc}
use ece_lib.Wire.{decimal}

memory_there : (malloc []).0 ≡ true
unfolding malloc
memory_there = refl

abbrev address : List ℕ
address = 0x20 ∷ 0xc7 ∷ 0xdd ∷ 0x11 ∷ []

decimal_run : decimal 4096 ≡ 52 ∷ 48 ∷ 57 ∷ 54 ∷ []
unfolding decimal
decimal_run = refl
