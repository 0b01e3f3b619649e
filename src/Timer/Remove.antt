-- ===== src/Timer/Remove.antt =====
-- `co_timer_heap_remove`: the search, and what is left.
use libco.Base.{
  ℕ, subst, zero, suc, ◌+◌, ◌≤◌, ◌<◌, ◌≡◌, ◌≢◌, refl, Bool, true, false, none, some, arith, ◌==◌,
  Bool-cases, inl, inr, Option-cases,
}
use libco.Timer.{TimerHeap, find, remove_at, remove}
use libco.Base.Tally.{tally}
use libco.Timer.Push.{IsValid}
use libco.Timer.Pop.{Taken, remove_at-Taken}

-- The search looks at the slots in order and returns the first that holds the coroutine.
find-some :
    (left i routine : ℕ) (a : ℕ → ℕ) {j : ℕ}
    → find left i routine a ≡ some j
    → (i ≤ j) × (j < i + left) × (a j ≡ routine)
unfolding find
find-some zero i routine a e = cc
find-some (suc left) i routine a {j} e = elim (Bool-cases (a i == routine)) [
  | inl hit ↦ ground (arith, hit)
  | inr miss ↦ ground (arith, miss, find-some left (suc i) routine a (rw miss at e))
]

find-none :
    (left i routine : ℕ) (a : ℕ → ℕ)
    → find left i routine a ≡ none
    → (c : ℕ) → i ≤ c
    → c < i + left
    → a c ≢ routine
unfolding find
find-none zero i routine a e c p q = absurd (omega arith)
find-none (suc left) i routine a e c p q = elim (Bool-cases (a i == routine)) [
  | inl hit ↦ ground (arith, hit)
  | inr miss ↦ ground (arith, miss, find-none left (suc i) routine a (rw miss at e) c)
]

pub tally-zero : (x n : ℕ) (a : ℕ → ℕ) → ((c : ℕ) → c < n → a c ≢ x) → tally x n a ≡ 0
tally-zero x zero a h = refl
tally-zero x (suc n) a h = ground (arith, h n, tally-zero x n a (λ c p. h c (omega arith)))

module _ (wakeup : ℕ → ℕ) where
  -- A coroutine that is found is taken out; one that is not is nowhere in the heap, which stays.
  abbrev pub RemoveResult : TimerHeap → ℕ → Bool × TimerHeap → Type 0
  RemoveResult h routine (true, g) = Taken wakeup h routine g
  RemoveResult h routine (false, g) = (g ≡ h) × (tally routine h.count h.heap ≡ 0)

  -- Remove takes one entry for the coroutine out of a valid heap if there is one, wherever it
  -- stands, and leaves a valid heap of the others; otherwise it returns false and changes nothing.
  pub remove-RemoveResult :
      (h : TimerHeap) (routine : ℕ)
      → IsValid wakeup h
      → RemoveResult h routine (remove wakeup h routine)
  unfolding remove
  remove-RemoveResult h routine v = elim (Option-cases (find h.count 0 routine h.heap)) [
    | inl e ↦
        rw (e, remove)
          (
            refl,
            tally-zero routine h.count h.heap
                (λ c q. find-none h.count 0 routine h.heap e c (omega arith) (omega arith)),
          )
    | inr (j, e) ↦
        let (low, high, at) = find-some h.count 0 routine h.heap e in
        rw (e, remove)
          (subst (λ (r : ℕ). Taken wakeup h r (remove_at wakeup h j)) at
            (remove_at-Taken wakeup h j v (omega arith)))
  ]
