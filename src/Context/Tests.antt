-- ===== src/Context/Tests.antt =====
-- A context at 4294967312, which takes both halves of a pointer, on the stack at 4096; and two
-- contexts of Windows in a thread that is no fiber yet.
use libco.Base.{ℕ, ◌≡◌, refl, true, none, some, store, arith}
use libco.Runtime.{Context, ok, platform}
use libco.Context.{init}
use libco.Context.Entry.{write_entry, halves, entry_wrapper, entry_wrapper-init}
use libco.Context.Fibers.{FiberContext, Answers, swap}
use libco.Context.Swap.{Switched, swap-Switched}

abbrev fresh : ℕ → Context
fresh a = record { stack_base = none; stack_size = 0 }

entry_wrapper-init_example :
    entry_wrapper
      (store fresh 4294967312 (init true (fresh 4294967312) 4096 65536 77).1)
      (write_entry (λ a. 0) 4096 77 5)
      (halves 4294967312).0
      (halves 4294967312).1
    ≡ some (77, 5)
unfolding init
entry_wrapper-init_example =
    entry_wrapper-init true fresh (λ a. 0) 4294967312 4096 65536 77 5 (λ e. omega (arith, e))
      (omega arith) refl

abbrev unstarted : FiberContext
unstarted = record { fiber = 0; stack_base = 4096; stack_size = 65536; entry = 77; arg = 5 }

abbrev answers : Answers
answers = record { converted = 500; last_error = 0; current_fiber = 0; created = 600 }

swap-Switched_example : Switched answers unstarted unstarted (swap answers unstarted unstarted)
swap-Switched_example = swap-Switched answers unstarted unstarted

-- Where the thread turns out to be no fiber, the switch fails, but the context keeps the number that
-- says so as its fiber, and the next switch does not fail.
abbrev odd : Answers
odd = record { converted = 0; last_error = 1280; current_fiber = 7680; created = 600 }

kept_number :
    ((swap odd unstarted unstarted).0 ≡ platform)
    × ((swap odd unstarted unstarted).1.fiber ≡ 7680)
    × ((swap odd (swap odd unstarted unstarted).1 unstarted).0 ≡ ok)
unfolding swap
kept_number = (refl, refl, refl)
