-- ===== src/Prelude/Words.antt =====
-- Machine words: a w-bit result is the number modulo 2 ^ w.
use Prim.Native.Nat.{ℕ, ◌+◌, ◌-◌, ◌/◌, ◌%◌, ◌^◌}
use nvme_virt.Prelude.Tests.{leb, if◌then◌else◌}

abbrev pub u8 : ℕ → ℕ
u8 n = n % 2 ^ 8

abbrev pub u32 : ℕ → ℕ
u32 n = n % 2 ^ 32

abbrev pub u64 : ℕ → ℕ
u64 n = n % 2 ^ 64

-- An `int` is its 32 bits; as a 64-bit word it is extended by its sign.
abbrev pub int_to_u64 : ℕ → ℕ
int_to_u64 n = if leb (2 ^ 31) (u32 n) then u32 n + (2 ^ 64 - 2 ^ 32) else u32 n

-- `a - b`, kept in 32 and in 64 bits.
abbrev pub sub32 : ℕ → ℕ → ℕ
sub32 a b = (a + (2 ^ 32 - b % 2 ^ 32)) % 2 ^ 32

abbrev pub sub64 : ℕ → ℕ → ℕ
sub64 a b = (a + (2 ^ 64 - b % 2 ^ 64)) % 2 ^ 64

-- The kernel's `DIV_ROUND_UP` in 64 bits, `min` and `max`.
abbrev pub div_round_up : ℕ → ℕ → ℕ
div_round_up n d = u64 (n + d - 1) / d

abbrev pub min_of : ℕ → ℕ → ℕ
min_of a b = if leb a b then a else b

abbrev pub max_of : ℕ → ℕ → ℕ
max_of a b = if leb a b then b else a
