-- ===== src/Coxx/Lost.antt =====
-- No wake-up of a wait group is lost.
use libco.Base.{
  ℕ, ◌+◌, ◌-◌, ◌%◌, ◌^◌, ◌≡◌, ◌≢◌, refl, ◌∙◌, sym, ap, ◌==◌, true, false, Option, none, some, List,
  [], ◌∷◌, arith, inl, inr, Bool-cases,
}
use libco.Runtime.{World, Outcome, returns, suspends, world, ok, current, wake, block}
use libco.Mutex.{lock, lock_as, unlock, unlock_to}
use libco.Cond.{broadcast, wait, wait_resume, relock}
use libco.Cond.Wake.{broadcast-Woken}
use libco.Coxx.{
  Group, Stage, finishes, group, guarded, unguarded, add, add_locked, done, done_locked, waiting,
  wait_locked, wait_group, wait_woken,
}

lock_as-queues :
    (o : Option ℕ) (w : World) (m q : ℕ) → m ≢ q → (world (lock_as o w m)).queues q ≡ w.queues q
unfolding lock_as block
lock_as-queues none w m q n = elim (Bool-cases (w.mutexes m).locked) [
  | inl held ↦ rw held refl
  | inr free ↦ rw free refl
]
lock_as-queues (some p) w m q n = elim (Bool-cases (w.mutexes m).locked) [
  | inl held ↦ rw held (ground (arith, n))
  | inr free ↦ rw free refl
]

lock-queues : (w : World) (m q : ℕ) → m ≢ q → (world (lock w m)).queues q ≡ w.queues q
unfolding lock
lock-queues w m q n = elim (Bool-cases (m == 0)) [
  | inl null ↦ rw null refl
  | inr there ↦ rw there (lock_as-queues (current w) w m q n)
]

wait_resume-queues : (w : World) (m q : ℕ) → m ≢ q → (world (wait_resume w m)).queues q ≡ w.queues q
unfolding wait_resume
wait_resume-queues w m q n = relocked (lock w m) (lock-queues w m q n)
  where
    relocked :
        (o : Outcome)
        → (world o).queues q ≡ w.queues q
        → (world (relock o ok)).queues q ≡ w.queues q
    relocked (returns e v) h = h
    relocked (suspends v) h = h

unlock-queues : (w : World) (m q : ℕ) → m ≢ q → (unlock w m).1.queues q ≡ w.queues q
unfolding unlock unlock_to wake
unlock-queues w m q n = elim (Bool-cases (m == 0)) [
  | inl null ↦ rw null refl
  | inr there ↦ rw there (passed (w.queues m))
]
  where
    passed : (xs : List ℕ) → (unlock_to xs w m).queues q ≡ w.queues q
    passed [] = refl
    passed (p ∷ rest) = ground (arith, n)

module _ (mtx cv : ℕ) where
  -- Nobody waits at a counter of 0.
  abbrev pub IsCalled : Group → Type 0
  IsCalled g = g.count ≡ 0 → g.world.queues cv ≡ []

  -- What happens to a wait group: the calls on it, each from its start, or from the point where it was
  -- resumed with the mutex or from the wait; and what leaves the line of waiters as it is. An addition
  -- does not lead to 0.
  pub data Step (g : Group) : Group → Type 0 where
    adds : (delta : ℕ) → (g.count + delta) % 2 ^ 32 ≢ 0 → Step g (group (add mtx cv delta g))
    adds_later :
        (delta : ℕ) → (g.count + delta) % 2 ^ 32 ≢ 0 → Step g (group (add_locked mtx cv delta g))
    does : Step g (group (done mtx cv g))
    does_later : Step g (group (done_locked mtx cv g))
    waits_first : Step g (group (wait_group mtx cv g))
    waits_later : Step g (group (wait_locked mtx cv g))
    wakes : Step g (group (wait_woken mtx cv g))
    others : (w : World) → w.queues cv ≡ g.world.queues cv → Step g (record g { world = w })

  pub data Reach : Group → Type 0 where
    start : {g : Group} → g.world.queues cv ≡ [] → Reach g
    step : {g h : Group} → Reach g → Step g h → Reach h

  add_locked-IsCalled :
      (delta : ℕ) (g : Group)
      → (g.count + delta) % 2 ^ 32 ≢ 0
      → IsCalled (group (add_locked mtx cv delta g))
  unfolding add_locked unguarded
  add_locked-IsCalled delta g n e = absurd (n e)

  done_locked-IsCalled : mtx ≢ cv → cv ≢ 0 → (g : Group) → IsCalled (group (done_locked mtx cv g))
  unfolding done_locked unguarded
  done_locked-IsCalled n z g e =
      let zero : ((g.count + (2 ^ 32 - 1)) % 2 ^ 32 == 0) ≡ true = ground (arith, e) in
      rw zero (
        unlock-queues (broadcast g.world cv).1 mtx cv n
        ∙ (broadcast-Woken g.world cv z).1.line cv
        ∙ ground arith)

  waiting-count : (o : Outcome) (c : ℕ) → (group (waiting mtx cv o c)).count ≡ c
  unfolding waiting
  waiting-count (returns e w) c = refl
  waiting-count (suspends w) c = refl

  counted : (c : ℕ) → (c == 0) ≡ false → c ≢ 0
  counted c h = ground (arith, h)

  wait_locked-IsCalled :
      mtx ≢ cv → (g : Group) → IsCalled g → IsCalled (group (wait_locked mtx cv g))
  unfolding wait_locked unguarded waiting
  wait_locked-IsCalled n g h = elim (Bool-cases (g.count == 0)) [
    | inl z ↦ rw z (λ e. unlock-queues g.world mtx cv n ∙ h e)
    | inr p ↦ rw p (λ e.
        let same = waiting-count (wait g.world cv mtx) g.count in
        absurd (counted g.count p (sym same ∙ e)))
  ]

  guarded-IsCalled :
      (o : Outcome) (g : Group) (part : Group → Stage)
      → (world o).queues cv ≡ g.world.queues cv
      → IsCalled g
      → ((h : Group) → h.count ≡ g.count → IsCalled h → IsCalled (group (part h)))
      → IsCalled (group (guarded o g.count part))
  unfolding guarded
  guarded-IsCalled (returns e w) g part s c f = f _ refl (λ z. s ∙ c z)
  guarded-IsCalled (suspends w) g part s c f = λ z. s ∙ c z

  Step-IsCalled : mtx ≢ cv → cv ≢ 0 → (g h : Group) → IsCalled g → Step g h → IsCalled h
  unfolding add done wait_group wait_woken
  Step-IsCalled n z g _ c (adds delta p) =
      guarded-IsCalled (lock g.world mtx) g (add_locked mtx cv delta) (lock-queues g.world mtx cv n)
        c (λ h same d. add_locked-IsCalled delta h (rw same p))
  Step-IsCalled n z g _ c (adds_later delta p) = add_locked-IsCalled delta g p
  Step-IsCalled n z g _ c does =
      guarded-IsCalled (lock g.world mtx) g (done_locked mtx cv) (lock-queues g.world mtx cv n) c
        (λ h same d. done_locked-IsCalled n z h)
  Step-IsCalled n z g _ c does_later = done_locked-IsCalled n z g
  Step-IsCalled n z g _ c waits_first =
      guarded-IsCalled (lock g.world mtx) g (wait_locked mtx cv) (lock-queues g.world mtx cv n) c
        (λ h same d. wait_locked-IsCalled n h d)
  Step-IsCalled n z g _ c waits_later = wait_locked-IsCalled n g c
  Step-IsCalled n z g _ c wakes =
      guarded-IsCalled (wait_resume g.world mtx) g (wait_locked mtx cv)
        (wait_resume-queues g.world mtx cv n) c (λ h same d. wait_locked-IsCalled n h d)
  Step-IsCalled n z g _ c (others w same) = λ e. same ∙ c e

  finishes-same : (a b : Group) → finishes a ≡ finishes b → a ≡ b
  finishes-same a b e = cc

  never : (o : Outcome) (c : ℕ) (v : Group) → waiting mtx cv o c ≡ finishes v → v.count ≡ 0
  unfolding waiting
  never (returns e w) c v h = absurd cc
  never (suspends w) c v h = absurd cc

  wait_locked-count : (g v : Group) → wait_locked mtx cv g ≡ finishes v → v.count ≡ 0
  unfolding wait_locked unguarded waiting
  wait_locked-count g v = elim (Bool-cases (g.count == 0)) [
    | inl zero ↦
        rw zero
          (λ e. ap (λ (x : Group). x.count) (sym (finishes-same _ v e)) ∙ ground (arith, zero))
    | inr p ↦ rw p (λ e. never (wait g.world cv mtx) g.count v e)
  ]

  guarded-count :
      (o : Outcome) (g v : Group)
      → guarded o g.count (wait_locked mtx cv) ≡ finishes v
      → v.count ≡ 0
  unfolding guarded
  guarded-count (returns e w) g v h = wait_locked-count (record { count = g.count; world = w }) v h
  guarded-count (suspends w) g v h = absurd cc

  -- On a mutex and a condition variable that are two objects: however calls on a wait group follow each
  -- other, if no addition leads to 0, then nobody waits while the counter is 0: each call of `done` that
  -- leads there calls all who wait. And a wait that returns does so at a counter of 0, whether it
  -- returns at once, or from where it got the mutex, or from where it was resumed from its wait.
  pub Reach-IsCalled :
      mtx ≢ cv
      → cv ≢ 0
      → (g : Group) → Reach g
      → IsCalled g
        × ((v : Group) → wait_group mtx cv g ≡ finishes v → v.count ≡ 0)
        × ((v : Group) → wait_locked mtx cv g ≡ finishes v → v.count ≡ 0)
        × ((v : Group) → wait_woken mtx cv g ≡ finishes v → v.count ≡ 0)
  unfolding wait_group wait_woken
  Reach-IsCalled n z g r = (
    reached g r,
    λ v. guarded-count (lock g.world mtx) g v,
    λ v. wait_locked-count g v,
    λ v. guarded-count (wait_resume g.world mtx) g v,
  )
    where
      reached : (h : Group) → Reach h → IsCalled h
      reached h (start e) = λ c. e
      reached _ (step {g = u} {h = v} r s) = Step-IsCalled n z u v (reached u r) s
