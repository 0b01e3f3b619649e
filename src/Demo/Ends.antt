-- ===== src/Demo/Ends.antt =====
-- Rounds of turns in the demo (examples/demo_producer_consumer.c), until nothing is left.
use libco.Base.{
  ℕ, zero, suc, ◌≤◌, ◌<◌, ◌≡◌, refl, true, inl, inr, List, [], ◌∷◌, arith, length, Bool-cases, ltb,
  ltb→lt, ◌⊎◌, has, sym, subst, ap, ◌∙◌, ltb,
}
use mathlib.Core.List.{append-nil}
use libco.Demo.{Shared, Routine, producer, consumer, for_at, while_at, finished, turn, turn_at, run}
use libco.Demo.Ring.{contents-nil}
use libco.Demo.Fifo.{puts, takes, total, IsFifo-length, IsSound, run-IsSound}
use libco.Demo.Progress.{left, idles, run-Quiet}
use libco.Demo.Deadlock.{to_put, to_take, idle-none}

-- Rounds of turns, one after the other.
unfoldable pub run_rounds : List (List ℕ) → List Routine → Shared → List Routine × Shared
unfolding run
run_rounds [] rs s = (rs, s)
run_rounds (is ∷ iss) rs s = let (xs, t) = run is rs s in run_rounds iss xs t

-- Each round gives each of `n` coroutines a turn, in any order and as often as it likes.
abbrev pub AreFair : (n : ℕ) → List (List ℕ) → Type 0
AreFair n [] = Unit {0}
AreFair n (is ∷ iss) = ((i : ℕ) → i < n → has i is ≡ true) × AreFair n iss

-- All coroutines have returned.
abbrev pub AllFinished : List Routine → Type 0
AllFinished [] = Unit {0}
AllFinished (producer args p ∷ rs) = (p ≡ finished) × AllFinished rs
AllFinished (consumer args p ∷ rs) = (p ≡ finished) × AllFinished rs

-- Turns change neither who there is nor what there is to do.
turn_at-same :
    (i : ℕ) (rs : List Routine) (s : Shared)
    → let xs = (turn_at i rs s).0 in
      (length xs ≡ length rs)
      × (total to_put xs ≡ total to_put rs)
      × (total to_take xs ≡ total to_take rs)
unfolding turn_at turn
turn_at-same i [] s = (refl, refl, refl)
turn_at-same zero (producer args p ∷ rs) s = (refl, refl, refl)
turn_at-same zero (consumer args p ∷ rs) s = (refl, refl, refl)
turn_at-same (suc i) (r ∷ rs) s =
    let (a, b, c) = turn_at-same i rs s in (ap suc a, omega (arith, b), omega (arith, c))

run-same :
    (is : List ℕ) (rs : List Routine) (s : Shared)
    → let xs = (run is rs s).0 in
      (length xs ≡ length rs)
      × (total to_put xs ≡ total to_put rs)
      × (total to_take xs ≡ total to_take rs)
unfolding run
run-same [] rs s = (refl, refl, refl)
run-same (i ∷ is) rs s =
    let (a, b, c) = turn_at-same i rs s in
    let (xs, t) = turn_at i rs s in let (d, e, f) = run-same is xs t in (d ∙ a, e ∙ b, f ∙ c)

idles-out : (j : ℕ) (rs : List Routine) (c : ℕ) → length rs ≤ j → idles j rs c ≡ true
idles-out j [] c h = refl
idles-out zero (r ∷ rs) c h = absurd (omega arith)
idles-out (suc j) (r ∷ rs) c h = idles-out j rs c (omega arith)

-- A round lowers what is left, or nothing is.
run-less :
    (is : List ℕ) (rs : List Routine) (s : Shared)
    → IsSound rs s
    → total to_put rs ≡ total to_take rs
    → ((i : ℕ) → i < length rs → has i is ≡ true)
    → let xs = (run is rs s).0 in (total left xs < total left rs) ⊎ (total left xs ≡ 0)
run-less is rs s v e h = elim (run-Quiet is rs s v) [
  | inl less ↦ inl less
  | inr q ↦
      let (a, b, c) = run-same is rs s in
      let k : (run is rs s).1.queue.count ≡ s.queue.count = ap (λ u. u.queue.count) q.same in
      inr (
        idle-none (run is rs s).0 (run is rs s).1 (run-IsSound is rs s v) (b ∙ e ∙ sym c) (λ j.
          subst (λ n. idles j (run is rs s).0 n ≡ true) (sym k)
            (elim (Bool-cases (ltb j (length rs))) [
              | inl within ↦ q.idle j (h j (ltb→lt j (length rs) within))
              | inr out ↦ idles-out j (run is rs s).0 s.queue.count (ground (arith, a, out))
            ])))
]

run_rounds-left :
    (iss : List (List ℕ)) (rs : List Routine) (s : Shared)
    → IsSound rs s
    → total to_put rs ≡ total to_take rs
    → AreFair (length rs) iss
    → total left rs ≤ length iss
    → let (xs, t) = run_rounds iss rs s in
      (total left xs ≡ 0) × IsSound xs t × (total to_put xs ≡ total to_take xs)
unfolding run_rounds
run_rounds-left [] rs s v e h n = (omega arith, v, e)
run_rounds-left (is ∷ iss) rs s v e (h, k) n =
    let (a, b, c) = run-same is rs s in
    let fewer : total left (run is rs s).0 ≤ length iss = elim (run-less is rs s v e h) [
      | inl less ↦ omega arith
      | inr over ↦ omega arith
    ] in
    run_rounds-left iss (run is rs s).0 (run is rs s).1 (run-IsSound is rs s v) (b ∙ e ∙ sym c)
      (subst (λ m. AreFair m iss) (sym a) k) fewer

left-AllFinished : (rs : List Routine) → total left rs ≡ 0 → AllFinished rs
left-AllFinished [] e = tt
left-AllFinished (producer args finished ∷ rs) e = (refl, left-AllFinished rs (omega arith))
left-AllFinished (consumer args finished ∷ rs) e = (refl, left-AllFinished rs (omega arith))
left-AllFinished (producer args (for_at i) ∷ rs) e = absurd (omega arith)
left-AllFinished (producer args (while_at i) ∷ rs) e = absurd (omega arith)
left-AllFinished (consumer args (for_at i) ∷ rs) e = absurd (omega arith)
left-AllFinished (consumer args (while_at i) ∷ rs) e = absurd (omega arith)

finished-all :
    (rs : List Routine)
    → AllFinished rs
    → (total puts rs ≡ total to_put rs) × (total takes rs ≡ total to_take rs)
finished-all [] h = (refl, refl)
finished-all (producer args p ∷ rs) (h, k) =
    let (a, b) = finished-all rs k in rw h (omega (arith, a), omega (arith, b))
finished-all (consumer args p ∷ rs) (h, k) =
    let (a, b) = finished-all rs k in rw h (omega (arith, a), omega (arith, b))

-- Take a sound state of coroutines that are to take as many items in all as they are to put. After
-- rounds of turns that each give every coroutine a turn, in any order and some of them several, and
-- no fewer rounds than the iterations and returns that are left, every coroutine has returned, the
-- items consumed are those produced, in the same order, and the queue is empty.
pub run_rounds-ends :
    (iss : List (List ℕ)) (rs : List Routine) (s : Shared)
    → IsSound rs s
    → total to_put rs ≡ total to_take rs
    → AreFair (length rs) iss
    → total left rs ≤ length iss
    → let (xs, t) = run_rounds iss rs s in
      AllFinished xs × (t.consumed ≡ t.produced) × (t.queue.count ≡ 0)
run_rounds-ends iss rs s v e h n =
    let (z, w, d) = run_rounds-left iss rs s v e h n in
    let (xs, t) = run_rounds iss rs s in
    let done = left-AllFinished xs z in
    let (a, b) = finished-all xs done in
    let nothing : t.queue.count ≡ 0 =
      omega (arith, IsFifo-length t w.fifo, a, b, d, w.put, w.taken) in
    (done, sym (w.fifo.order ∙ rw (contents-nil t.queue nothing) (append-nil t.consumed)), nothing)
