-- ===== src/Base/Words.antt =====
-- The fixed widths of the C types: `uchar`, `ushort` and, on the 32-bit platform, `ulong` and
-- `size_t`. A mask `x & 0xFF` is `x % 2 ^ 8`, a shift `x >> 8` is `x / 2 ^ 8`.
use Prim.Native.Nat.{ℕ, ◌%◌, ◌^◌, ◌<◌}

abbrev pub u8 : ℕ → ℕ
u8 n = n % 2 ^ 8

abbrev pub u16 : ℕ → ℕ
u16 n = n % 2 ^ 16

abbrev pub u32 : ℕ → ℕ
u32 n = n % 2 ^ 32

abbrev pub IsByte : ℕ → Type 0
IsByte b = b < 2 ^ 8
