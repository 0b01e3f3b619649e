-- ===== src/Allocator/Laws.antt =====
-- Which allocator a call reaches, and the size that `co_calloc` asks for.
use libco.Base.{
  ℕ, ◌*◌, ◌%◌, ◌<◌, ◌≤◌, ◌≡◌, refl, false, Option, none, some, ◌==◌, if◌then◌else◌, Bool-cases, inl,
  inr, ◌↔◌, mul_size, word, arith,
}
use libco.Allocator.{
  Allocator, Global, initial, set_allocator, get_allocator, Call, malloc, realloc, free,
  user_malloc, user_realloc, user_free, co_malloc, co_calloc, co_realloc, co_free,
}

-- The bytes that a call asks for.
abbrev pub requested : Call → ℕ
requested (malloc size) = size
requested (realloc ptr size) = size
requested (free ptr) = 0
requested (user_malloc fn size userdata) = size
requested (user_realloc fn ptr size userdata) = size
requested (user_free fn ptr userdata) = 0

-- The states that the program reaches: without a custom allocator the fields are cleared.
pub data IsReachable : Global → Type 0 where
  start : IsReachable initial
  set : {g : Global} (a : Option Allocator) → IsReachable g → IsReachable (set_allocator g a)

cleared_unless_custom : {g : Global} → IsReachable g → g.has_custom ≡ false → g ≡ initial
unfolding set_allocator
cleared_unless_custom start e = refl
cleared_unless_custom (set none r) e = refl
cleared_unless_custom (set (some a) r) e = cc

-- In any state that calls of `co_set_allocator` reach from the start, setting what
-- `co_get_allocator` returned restores that state, whatever state it is done in.
pub set_allocator-get_allocator :
    (g h : Global) → IsReachable g → set_allocator h (get_allocator g) ≡ g
unfolding set_allocator get_allocator
set_allocator-get_allocator g h r = elim (Bool-cases g.has_custom) [
  | inl custom ↦ ground (arith, custom)
  | inr default ↦ rw (cleared_unless_custom r default)
]

-- The call that is made while `co_get_allocator` returns a given answer: to the user's function,
-- with the user data, if there is a custom allocator that has it, else to the C library.
unfoldable pub reached : Option Allocator → (Allocator → Option ℕ) → (ℕ → ℕ → Call) → Call → Call
reached none fn user library = library
reached (some a) fn user library = elim (fn a) [ none ↦ library | some f ↦ user f a.userdata ]

-- What `co_get_allocator` shows decides where each allocation function goes. Freeing NULL makes no
-- call.
pub calls-get_allocator :
    (g : Global) (size ptr : ℕ)
    → let a = get_allocator g in
      (co_malloc g size ≡ reached a (λ b. b.malloc_fn) (λ f u. user_malloc f size u) (malloc size))
      × (co_realloc g ptr size
          ≡ reached a (λ b. b.realloc_fn) (λ f u. user_realloc f ptr size u) (realloc ptr size))
      × (co_free g ptr ≡ (
          if ptr == 0
          then none
          else some (reached a (λ b. b.free_fn) (λ f u. user_free f ptr u) (free ptr))))
unfolding get_allocator co_malloc co_realloc co_free reached
calls-get_allocator g size ptr = elim (Bool-cases g.has_custom) [
  | inl custom ↦ ground (arith, custom)
  | inr default ↦ ground (arith, default)
]

requested-co_malloc : (g : Global) (size : ℕ) → requested (co_malloc g size) ≡ size
unfolding co_malloc
requested-co_malloc g size = ground arith

-- `co_calloc` asks for the product of its arguments modulo 2 ^ 64, which is the size of the whole
-- array exactly if that fits a `size_t`, and else less. It clears all that it got, and no more.
pub co_calloc-requested :
    (answer : Call → Option ℕ) (g : Global) (count size : ℕ)
    → let (call, ptr, cleared) = co_calloc answer g count size in
      (requested call ≡ (count * size) % word)
      × ((requested call ≡ count * size) ↔ (count * size < word))
      × ((requested call < count * size) ↔ (word ≤ count * size))
      × (cleared ≡ elim ptr [ none ↦ 0 | some p ↦ requested call ])
unfolding co_calloc
co_calloc-requested answer g count size =
    let e = requested-co_malloc g (mul_size count size) in
    (
      e,
      ((λ h. omega (arith, e)), (λ h. omega (arith, e))),
      ((λ h. omega (arith, e)), (λ h. omega (arith, e))),
      ground (arith, e),
    )
