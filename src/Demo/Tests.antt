-- ===== src/Demo/Tests.antt =====
-- The demo as `main` starts it.
use libco.Base.{ℕ, zero, suc, true, ◌<◌, ◌≡◌, refl, List, [], ◌∷◌, arith, has}
use libco.Channel.Ring.{slots}
use libco.Demo.{run, start, main_routines}
use libco.Demo.Ring.{contents}
use libco.Demo.Fifo.{IsSound, run-IsSound}
use libco.Demo.Ends.{run_rounds, AreFair, AllFinished, run_rounds-ends}

main_routines-IsSound : IsSound main_routines start
unfolding contents slots
main_routines-IsSound = record {
  fifo = record {
    ring = record { bounded = omega arith; head_in = omega arith; tail_at = refl };
    order = refl;
  };
  fits = (omega arith, (omega arith, (omega arith, (omega arith, tt))));
  put = refl;
  taken = refl;
}

abbrev fair_round : List ℕ
fair_round = 3 ∷ 0 ∷ 2 ∷ 1 ∷ []

fair_round-has : (i : ℕ) → i < 4 → has i fair_round ≡ true
fair_round-has i h = ground arith

-- Twenty rounds.
abbrev rounds : ℕ → List (List ℕ)
rounds zero = []
rounds (suc n) = fair_round ∷ rounds n

rounds-AreFair : (n : ℕ) → AreFair 4 (rounds n)
rounds-AreFair zero = tt
rounds-AreFair (suc n) = (fair_round-has, rounds-AreFair n)

run-IsSound_example : let (xs, t) = run (3 ∷ 0 ∷ 0 ∷ 2 ∷ 1 ∷ []) main_routines start in IsSound xs t
run-IsSound_example = run-IsSound (3 ∷ 0 ∷ 0 ∷ 2 ∷ 1 ∷ []) main_routines start main_routines-IsSound

run_rounds-ends_example :
    let (xs, t) = run_rounds (rounds 20) main_routines start in
    AllFinished xs × (t.consumed ≡ t.produced) × (t.queue.count ≡ 0)
run_rounds-ends_example =
    run_rounds-ends (rounds 20) main_routines start main_routines-IsSound refl (rounds-AreFair 20)
      (omega arith)

-- What the demo prints in rounds of that order.
main_prints :
    (run_rounds (rounds 7) main_routines start).1.consumed
    ≡ 100 ∷ 200 ∷ 101 ∷ 201 ∷ 102 ∷ 202 ∷ 103 ∷ 104 ∷ []
unfolding run_rounds
main_prints = refl
