-- ===== src/Base/Words.antt =====
-- `size_t` and `unsigned int` arithmetic: wrap-around is written out.
use Prim.Native.Nat.{ℕ, ◌+◌, ◌-◌, ◌%◌, ◌^◌}

-- 2 ^ 64, the modulus of `size_t`
abbrev pub size_mod : ℕ
size_mod = 2 ^ 64

-- `a + b` and `a - b` on `size_t`
abbrev pub add_size : ℕ → ℕ → ℕ
add_size a b = (a + b) % size_mod

abbrev pub sub_size : ℕ → ℕ → ℕ
sub_size a b = (a + size_mod - b) % size_mod
