-- ===== src/Base/Tally.antt =====
-- Multisets of addresses, as counts: over the first slots of an array, and over a list.
use Prim.Native.Nat.{ℕ, zero, suc, ◌+◌, ◌-◌, ◌≤◌, ◌<◌}
use mathlib.Core.Path.{◌≡◌, refl}
use mathlib.Core.Logic.{◌≢◌}
use mathlib.Core.Bool.{true, false}
use mathlib.Core.List.{List, [], ◌∷◌, ◌++◌}
use native.Mathlib.Omega.{arith}
use libco.Base.Tests.{◌==◌, if◌then◌else◌, store}
use libco.Base.Lists.{erase, has}

-- How often `x` stands in the first `n` slots of an array.
abbrev pub tally : ℕ → ℕ → (ℕ → ℕ) → ℕ
tally x zero a = 0
tally x (suc n) a = (if x == a n then 1 else 0) + tally x n a

pub tally-store_out :
    (x n : ℕ) (a : ℕ → ℕ) (i v : ℕ) → n ≤ i → tally x n (store a i v) ≡ tally x n a
tally-store_out x zero a i v h = refl
tally-store_out x (suc n) a i v h = ground (arith, tally-store_out x n a i v)

-- A write trades the old entry for the new one.
pub tally-store :
    (x n : ℕ) (a : ℕ → ℕ) (i v : ℕ)
    → i < n
    → tally x n (store a i v) + (if x == a i then 1 else 0)
      ≡ tally x n a + (if x == v then 1 else 0)
tally-store x zero a i v h = absurd (omega arith)
tally-store x (suc n) a i v h = ground (arith, tally-store x n a i v, tally-store_out x n a i v)

pub tally-pred :
    (x n : ℕ) (a : ℕ → ℕ)
    → 0 < n
    → tally x n a ≡ (if x == a (n - 1) then 1 else 0) + tally x (n - 1) a
tally-pred x zero a h = absurd (omega arith)
tally-pred x (suc n) a h = let e : suc n - 1 ≡ n = omega arith in rw e refl

-- How often `x` stands in a list.
abbrev pub occ : ℕ → List ℕ → ℕ
occ x [] = 0
occ x (y ∷ ys) = (if x == y then 1 else 0) + occ x ys

pub occ-erase :
    (x a : ℕ) (xs : List ℕ)
    → has a xs ≡ true
    → occ x (erase a xs) + (if x == a then 1 else 0) ≡ occ x xs
occ-erase x a [] h = cc
occ-erase x a (y ∷ ys) h = ground (arith, occ-erase x a ys)

pub occ-has : (x : ℕ) (xs : List ℕ) → has x xs ≡ true → 0 < occ x xs
occ-has x [] h = cc
occ-has x (y ∷ ys) h = ground (arith, occ-has x ys)

pub occ-append : (x : ℕ) (xs ys : List ℕ) → occ x (xs ++ ys) ≡ occ x xs + occ x ys
occ-append x [] ys = omega arith
occ-append x (y ∷ xs) ys = omega (arith, occ-append x xs ys)

pub occ-out : (x : ℕ) (xs : List ℕ) → has x xs ≡ false → occ x xs ≡ 0
occ-out x [] h = refl
occ-out x (y ∷ ys) h = ground (arith, occ-out x ys)

-- What stands at an index is counted.
pub tally-index : (x n : ℕ) (a : ℕ → ℕ) (i : ℕ) → i < n → tally x n a ≡ 0 → a i ≢ x
tally-index x zero a i h e = absurd (omega arith)
tally-index x (suc n) a i h e = ground (arith, tally-index x n a i)
