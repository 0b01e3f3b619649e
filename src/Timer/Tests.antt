-- ===== src/Timer/Tests.antt =====
-- co_timer.c at a heap of three coroutines, 5, 6 and 7, due at 50, 60 and 70, in a full array.
use libco.Base.{ℕ, ◌*◌, ◌≡◌, ◌≤◌, ◌<◌, refl, Bool, true, some, arith, store}
use libco.Timer.{TimerHeap, push, pop, remove}
use libco.Timer.Push.{IsValid, PushResult, push-PushResult}
use libco.Timer.Pop.{Taken, pop-Taken}
use libco.Timer.Remove.{RemoveResult, remove-RemoveResult}

abbrev due : ℕ → ℕ
due p = p * 10

abbrev slots : ℕ → ℕ
slots = store (store (store (λ _. 0) 0 5) 1 7) 2 6

abbrev sample : TimerHeap
sample = record { heap = slots; count = 3; capacity = 3 }

sample-IsValid : IsValid due sample
sample-IsValid = record {
  ordered = λ c p q. ground arith;
  bounded = omega arith;
  nonempty = omega arith;
  fits = omega arith;
}

abbrev granted : ℕ → Bool
granted bytes = true

-- An earlier one goes to the root, and comes out first.
push-pop : (pop due (push due granted sample 4).1).0 ≡ some 4
unfolding push pop
push-pop = refl

push-PushResult_example : PushResult due granted sample 4 (push due granted sample 4)
push-PushResult_example = push-PushResult due granted sample 4 sample-IsValid (omega arith)

pop-Taken_example :
    ((pop due sample).0 ≡ some 5)
    × Taken due sample 5 (pop due sample).1
    × ((i : ℕ) → i < 3 → 50 ≤ due (slots i))
pop-Taken_example = pop-Taken due sample sample-IsValid refl

remove-RemoveResult_example : RemoveResult due sample 7 (remove due sample 7)
remove-RemoveResult_example = remove-RemoveResult due sample 7 sample-IsValid
