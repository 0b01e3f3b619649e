-- ===== src/Base/Words.antt =====
-- Arithmetic of `size_t` and `uint64_t`, which wraps at 2 ^ 64.
use Prim.Native.Nat.{ℕ, ◌+◌, ◌-◌, ◌%◌, ◌^◌, ◌*◌}

abbrev pub word : ℕ
word = 2 ^ 64

abbrev pub inc : ℕ → ℕ
inc a = (a + 1) % word

abbrev pub dec : ℕ → ℕ
dec a = (a + word - 1) % word

abbrev pub mul_size : ℕ → ℕ → ℕ
mul_size a b = (a * b) % word
