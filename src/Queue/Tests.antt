-- ===== src/Queue/Tests.antt =====
-- co_queue.h at two queues of three nodes: sentinels 1 and 2, nodes 10, 11 and 12.
use libco.Base.{ℕ, ◌≡◌, refl, none, some, List, [], ◌∷◌, arith}
use libco.Queue.{Links, Queue, init, push_back, push_front, remove, pop_front}
use libco.Queue.Refine.{Holds, rest}
use libco.Queue.Separate.{AreApart, pop_front-push_back}
use libco.Queue.Deque.{Call, back_in, front_in, out, pop, run, spec, run-spec}
use libco.Queue.Iterate.{foreach, foreach-foldl}

abbrev blank : Links
blank = record { next = λ a. a; prev = λ a. a }

abbrev two : List ℕ
two = 10 ∷ 11 ∷ []

abbrev waiting : Queue
waiting = record { head = 1; size = 2 }

abbrev ready : Queue
ready = record { head = 2; size = 1 }

-- Queue 1 holds 10 and 11, queue 2 holds 12.
abbrev memory : Links
memory =
    (push_back
      (push_back (push_back (init (init blank 1).0 2).0 (init blank 1).1 10).0
        (record waiting { size = 1 }) 11).0
      (record ready { size = 0 }) 12).0

waiting-Holds : Holds memory waiting two
unfolding init push_back
waiting-Holds = ground arith

ready-Holds : Holds memory ready (12 ∷ [])
unfolding init push_back
ready-Holds = ground arith

apart : AreApart waiting two ready (12 ∷ [])
apart c i = ground arith

pop_front-push_back_example :
    let (node, m1, q') = pop_front memory waiting in
    let (m2, r') = push_back m1 ready 10 in
    (node ≡ some 10) × Holds m2 q' (11 ∷ []) × Holds m2 r' (12 ∷ 10 ∷ [])
pop_front-push_back_example =
    pop_front-push_back memory waiting ready 10 (11 ∷ []) (12 ∷ []) waiting-Holds ready-Holds apart
      (omega arith)

abbrev calls : List Call
calls = pop ∷ back_in 12 ∷ out 11 ∷ front_in 10 ∷ pop ∷ pop ∷ pop ∷ []

replies : (run memory waiting calls).0 ≡ some 10 ∷ some 10 ∷ some 12 ∷ none ∷ []
unfolding run init push_back push_front remove pop_front
replies = refl

run-spec_example :
    let (replies, m', q') = run memory waiting calls in
    (replies ≡ (spec two calls).0) × Holds m' q' (spec two calls).1
unfolding rest
run-spec_example = run-spec calls memory waiting two waiting-Holds (ground arith)

foreach-foldl_example :
    foreach (λ (ns : List ℕ) (n : ℕ). n ∷ ns) memory waiting [] ≡ some (11 ∷ 10 ∷ [])
foreach-foldl_example =
    foreach-foldl (λ (ns : List ℕ) (n : ℕ). n ∷ ns) memory waiting two [] waiting-Holds
