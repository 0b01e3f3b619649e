-- ===== src/Allocator/Tests.antt =====
-- co_allocator.c with a user's malloc and no other function of theirs.
use libco.Base.{◌*◌, ◌%◌, ◌<◌, ◌≤◌, ◌↔◌, word, ◌≡◌, refl, none, some}
use libco.Allocator.{
  Allocator, initial, set_allocator, co_malloc, co_free, co_calloc, user_malloc, free,
}
use libco.Allocator.Laws.{requested, co_calloc-requested}

abbrev arena : Allocator
arena = record { malloc_fn = some 900; realloc_fn = none; free_fn = none; userdata = 7 }

-- What the user's malloc returns goes to the C library's free.
partial :
    let g = set_allocator initial (some arena) in
    (co_malloc g 64 ≡ user_malloc 900 64 7) × (co_free g 5000 ≡ some (free 5000))
unfolding set_allocator co_malloc co_free
partial = (refl, refl)

-- 2 ^ 63 elements of two bytes: the request is for no byte at all.
co_calloc-requested_example :
    let (call, ptr, cleared) = co_calloc (λ c. some 5000) initial 9223372036854775808 2 in
    (requested call ≡ (9223372036854775808 * 2) % word)
    × ((requested call ≡ 9223372036854775808 * 2) ↔ (9223372036854775808 * 2 < word))
    × ((requested call < 9223372036854775808 * 2) ↔ (word ≤ 9223372036854775808 * 2))
    × (cleared ≡ elim ptr [ none ↦ 0 | some p ↦ requested call ])
co_calloc-requested_example = co_calloc-requested (λ c. some 5000) initial 9223372036854775808 2
