-- ===== src/Prelude/Words.antt =====
-- Machine words of the 32-bit configuration (types.rs, feature `arch-32bit`): `usize`,
-- `UBaseType_t` and `TickType_t` are `u32`. Release arithmetic wraps.
use Prim.Native.Nat.{ℕ, ◌+◌, ◌-◌, ◌%◌, ◌^◌}

abbrev pub word_mod : ℕ
word_mod = 2 ^ 32

abbrev pub word_max : ℕ
word_max = 2 ^ 32 - 1

abbrev pub add_word : ℕ → ℕ → ℕ
add_word a b = (a + b) % word_mod

abbrev pub sub_word : ℕ → ℕ → ℕ
sub_word a b = (a + word_mod - b) % word_mod
