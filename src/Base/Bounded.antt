-- ===== src/Base/Bounded.antt =====
-- The limits of the machine integers that the sources use.
use Prim.Native.Nat.{ℕ, ◌^◌}

-- The number of values of a `size_t` or a `uint64_t`.
abbrev pub u64_mod : ℕ
u64_mod = 2 ^ 64
