-- ===== src/Allocator.antt =====
-- libco/src/co_allocator.c: the allocation functions that a user can replace.
-- The C library's malloc, realloc and free, and the user's functions, are outside this code: a call
-- of one is recorded as a value, with its arguments. What it returns is a parameter.
pub mod Laws
mod Tests
use libco.Base.{
  ℕ, ◌*◌, ◌%◌, Bool, true, false, Option, none, some, List, [], ◌∷◌, ◌&&◌, ◌==◌, if◌then◌else◌,
  mul_size,
}

-- `co_allocator_t`. A function pointer is an address; `none` is `NULL`.
pub record Allocator : Type 0 where
  pub malloc_fn : Option ℕ
  pub realloc_fn : Option ℕ
  pub free_fn : Option ℕ
  pub userdata : ℕ

-- `g_allocator` and `g_has_custom_allocator`.
pub record Global : Type 0 where
  pub allocator : Allocator
  pub has_custom : Bool

abbrev pub no_allocator : Allocator
no_allocator = record { malloc_fn = none; realloc_fn = none; free_fn = none; userdata = 0 }

-- The static initialisers.
abbrev pub initial : Global
initial = record { allocator = no_allocator; has_custom = false }

unfoldable pub set_allocator : Global → Option Allocator → Global
set_allocator g none = record { allocator = no_allocator; has_custom = false }
set_allocator g (some a) = record { allocator = a; has_custom = true }

unfoldable pub get_allocator : Global → Option Allocator
get_allocator g = if g.has_custom then some g.allocator else none

-- The call that an allocation function makes: of the C library, or of the function at an address
-- with its user data.
pub data Call : Type 0 where
  malloc : (size : ℕ) → Call
  realloc : (ptr size : ℕ) → Call
  free : (ptr : ℕ) → Call
  user_malloc : (fn size userdata : ℕ) → Call
  user_realloc : (fn ptr size userdata : ℕ) → Call
  user_free : (fn ptr userdata : ℕ) → Call

-- `g_has_custom_allocator && fn`, with the function.
abbrev pub chosen : Global → Option ℕ → Option ℕ
chosen g fn = if g.has_custom then fn else none

malloc_call : Option ℕ → (size userdata : ℕ) → Call
malloc_call none size userdata = malloc size
malloc_call (some fn) size userdata = user_malloc fn size userdata

unfoldable pub co_malloc : Global → ℕ → Call
unfolding malloc_call
co_malloc g size = malloc_call (chosen g g.allocator.malloc_fn) size g.allocator.userdata

-- `co_calloc`: the call that it makes, and how many bytes at the result it then clears. `answer` is
-- what a call returns.
unfoldable pub co_calloc :
    (answer : Call → Option ℕ) → Global → (count size : ℕ) → Call × Option ℕ × ℕ
unfolding co_malloc
co_calloc answer g count size =
    let total = mul_size count size in
    let call = co_malloc g total in
    (call, answer call, elim (answer call) [ none ↦ 0 | some ptr ↦ total ])

realloc_call : Option ℕ → (ptr size userdata : ℕ) → Call
realloc_call none ptr size userdata = realloc ptr size
realloc_call (some fn) ptr size userdata = user_realloc fn ptr size userdata

unfoldable pub co_realloc : Global → (ptr size : ℕ) → Call
unfolding realloc_call
co_realloc g ptr size = realloc_call (chosen g g.allocator.realloc_fn) ptr size g.allocator.userdata

free_call : Option ℕ → (ptr userdata : ℕ) → Call
free_call none ptr userdata = free ptr
free_call (some fn) ptr userdata = user_free fn ptr userdata

-- `co_free` does nothing on `NULL`, which is 0.
unfoldable pub co_free : Global → ℕ → Option Call
unfolding free_call
co_free g ptr =
    if ptr == 0
    then none
    else some (free_call (chosen g g.allocator.free_fn) ptr g.allocator.userdata)
