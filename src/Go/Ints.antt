-- ===== src/Go/Ints.antt =====
-- Go's integers of a fixed width by their residues: an `int64` (and `int`) is a number below 2^64
-- whose upper half stands for the negative ones, an `int32` one below 2^32.
use proxy_sampler.Prelude.{ℕ, ◌+◌, ◌-◌, ◌%◌, ◌^◌, Bool, leb, ltb, if◌then◌else◌}

abbrev pub Int64 : Type 0
Int64 = ℕ

abbrev pub Int32 : Type 0
Int32 = ℕ

abbrev pub max_uint32 : ℕ
max_uint32 = 2 ^ 32 - 1

abbrev pub add_int64 : Int64 → Int64 → Int64
add_int64 a b = (a + b) % 2 ^ 64

abbrev pub is_negative : Int64 → Bool
is_negative a = leb (2 ^ 63) a

-- `int32(a)` and `uint32(a)`.
abbrev pub low32 : Int64 → Int32
low32 a = a % 2 ^ 32

-- `int(c)` of an `int32`.
abbrev pub sign_extend : Int32 → Int64
sign_extend c = if ltb c (2 ^ 31) then c else c + (2 ^ 64 - 2 ^ 32)

abbrev pub add_uint32 : ℕ → ℕ → ℕ
add_uint32 a b = (a + b) % 2 ^ 32
