-- ===== src/Prelude/Words.antt =====
-- Machine words as natural numbers, with the wrap-around written out.
use Prim.Native.Nat.{ℕ, ◌+◌, ◌-◌, ◌%◌}

abbrev pub u32 : ℕ → ℕ
u32 x = x % 4294967296

-- `uint32_t` subtraction
abbrev pub sub32 : ℕ → ℕ → ℕ
sub32 x y = u32 (x + 4294967296 - y)

abbrev pub u16 : ℕ → ℕ
u16 x = x % 65536

abbrev pub u8 : ℕ → ℕ
u8 x = x % 256
