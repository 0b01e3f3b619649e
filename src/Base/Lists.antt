-- ===== src/Base/Lists.antt =====
-- Lists of addresses: length, membership, distinctness, and the removal of an entry.
use Prim.Native.Nat.{ℕ, suc, ◌+◌}
use mathlib.Core.Path.{◌≡◌, refl}
use mathlib.Core.Bool.{Bool, true, false, ◌||◌}
use mathlib.Core.List.{List, [], ◌∷◌, ◌++◌}
use native.Mathlib.Omega.{arith}
use mathlib.Core.Logic.{inl, inr}
use libco.Base.Tests.{◌==◌, if◌then◌else◌, Bool-cases, eq_self}

abbrev pub length {ℓ} : {A : Type ℓ} → List A → ℕ
length [] = 0
length (x ∷ xs) = suc (length xs)

pub length-append {ℓ} : {A : Type ℓ} (xs ys : List A) → length (xs ++ ys) ≡ length xs + length ys
length-append [] ys = omega arith
length-append (x ∷ xs) ys = omega (arith, length-append xs ys)

abbrev pub has : ℕ → List ℕ → Bool
has a [] = false
has a (x ∷ xs) = (a == x) || has a xs

abbrev pub IsDistinct : List ℕ → Type 0
IsDistinct [] = Unit {0}
IsDistinct (x ∷ xs) = (has x xs ≡ false) × IsDistinct xs

-- Drops the first entry that is `a`.
abbrev pub erase : ℕ → List ℕ → List ℕ
erase a [] = []
erase a (x ∷ xs) = if a == x then xs else x ∷ erase a xs

pub has-append : (a : ℕ) (xs ys : List ℕ) → has a (xs ++ ys) ≡ (has a xs || has a ys)
has-append a [] ys = refl
has-append a (x ∷ xs) ys = ground (arith, has-append a xs ys)

pub has-erase : (a b : ℕ) (xs : List ℕ) → has a xs ≡ false → has a (erase b xs) ≡ false
has-erase a b [] h = refl
has-erase a b (x ∷ xs) h = ground (arith, has-erase a b xs)

pub IsDistinct-erase : (a : ℕ) (xs : List ℕ) → IsDistinct xs → IsDistinct (erase a xs)
IsDistinct-erase a [] d = tt
IsDistinct-erase a (x ∷ xs) d = ground (arith, IsDistinct-erase a xs, has-erase x a xs)

pub IsDistinct-snoc :
    (a : ℕ) (xs : List ℕ) → IsDistinct xs → has a xs ≡ false → IsDistinct (xs ++ a ∷ [])
IsDistinct-snoc a [] d h = (refl, tt)
IsDistinct-snoc a (x ∷ xs) d h = ground (arith, IsDistinct-snoc a xs, has-append x xs (a ∷ []))

pub length-erase : (a : ℕ) (xs : List ℕ) → has a xs ≡ true → length xs ≡ suc (length (erase a xs))
length-erase a [] h = cc
length-erase a (x ∷ xs) h = ground (arith, length-erase a xs)

pub erase_head : (a : ℕ) (xs : List ℕ) → erase a (a ∷ xs) ≡ xs
erase_head a xs = rw (eq_self a) refl

pub erase_second : (p b : ℕ) (xs : List ℕ) → erase p (b ∷ p ∷ xs) ≡ b ∷ xs
erase_second p b xs = elim (Bool-cases (p == b)) [
  | inl e ↦ let same : p ≡ b = ground (arith, e) in rw (same, eq_self b) refl
  | inr e ↦ rw (e, eq_self p) refl
]
