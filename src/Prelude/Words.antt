-- ===== src/Prelude/Words.antt =====
-- Machine words: `uint16_t`, `uint32_t` and `uint64_t` arithmetic wraps at a power of two.
use Prim.Native.Nat.{ℕ, ◌%◌, ◌^◌}

abbrev pub u8 : ℕ → ℕ
u8 n = n % 2 ^ 8

abbrev pub u16 : ℕ → ℕ
u16 n = n % 2 ^ 16

abbrev pub u32 : ℕ → ℕ
u32 n = n % 2 ^ 32

abbrev pub u64 : ℕ → ℕ
u64 n = n % 2 ^ 64

-- `1 << n` of an int. C says nothing of an n of 32 or more; x86 shifts by n modulo 32.
abbrev pub shift_1 : ℕ → ℕ
shift_1 n = 2 ^ (n % 32)
