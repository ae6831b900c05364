-- ===== src/Prelude/Words.antt =====
-- The C types of a 32-bit x86 build: `unsigned int` wraps at 2 ^ 32. A signed `int` is kept as its
-- bit pattern wherever the source mixes it with unsigned values.
use Prim.Native.Nat.{ℕ, ◌+◌, ◌-◌, ◌*◌, ◌%◌}

abbrev pub u32_mod : ℕ
u32_mod = 0x1_0000_0000

abbrev pub u32 : ℕ → ℕ
u32 n = n % u32_mod

abbrev pub add32 : ℕ → ℕ → ℕ
add32 a b = (a + b) % u32_mod

-- `a - b` for `b < 2 ^ 32`: the modulus is added first, since `-` on ℕ stops at 0.
abbrev pub sub32 : ℕ → ℕ → ℕ
sub32 a b = (a + u32_mod - b) % u32_mod

abbrev pub mul32 : ℕ → ℕ → ℕ
mul32 a b = a * b % u32_mod
