-- ===== src/Context/Swap.antt =====
-- Which fibers a switch creates, and which a context owns.
use libco.Base.{
  ℕ, ◌≡◌, ◌≢◌, ◌⊎◌, ◌==◌, ◌||◌, if◌then◌else◌, Bool, true, false, List, [], ◌∷◌, arith, inl, inr,
  Bool-cases,
}
use libco.Runtime.{Error, ok, platform}
use libco.Context.Fibers.{
  FiberContext, Answers, ensure_from, ensure_to, swap, swap_from, set_fiber, already_fiber,
  no_fiber,
}

-- The fiber that the context which is left ends up with.
pub data Source (r : Answers) (from : FiberContext) : ℕ → Type 0 where
  own : from.fiber ≢ 0 → Source r from from.fiber
  converted : from.fiber ≡ 0 → r.converted ≢ 0 → Source r from r.converted
  running :
      from.fiber ≡ 0
      → r.converted ≡ 0
      → r.last_error ≡ already_fiber
      → r.current_fiber ≢ 0
      → r.current_fiber ≢ no_fiber
      → Source r from r.current_fiber

-- There is none for it.
pub record NoSource (r : Answers) (from : FiberContext) : Type 0 where
  pub none_own : from.fiber ≡ 0
  pub not_converted : r.converted ≡ 0
  pub not_running :
      (r.last_error ≢ already_fiber) ⊎ ((r.current_fiber ≡ 0) ⊎ (r.current_fiber ≡ no_fiber))

-- The outcomes of a switch, each with what it makes of both contexts, and the fibers created.
pub data Switched (r : Answers) (from to : FiberContext)
    : Error × FiberContext × FiberContext × List ℕ → Type 0 where
  again :
      (f : ℕ) → Source r from f → to.fiber ≢ 0 → Switched r from to (ok, set_fiber from f, to, [])
  first :
      (f : ℕ)
      → Source r from f
      → to.fiber ≡ 0
      → r.created ≢ 0
      → Switched r from to (ok, set_fiber from f, set_fiber to r.created, r.created ∷ [])
  no_target :
      (f : ℕ)
      → Source r from f
      → to.fiber ≡ 0
      → r.created ≡ 0
      → Switched r from to (platform, set_fiber from f, to, [])
  no_source :
      (f : ℕ)
      → NoSource r from
      → f ≡ (if r.last_error == already_fiber then r.current_fiber else 0)
      → Switched r from to (platform, set_fiber from f, to, [])

data Ensured (r : Answers) (from : FiberContext) : Bool × FiberContext → Type 0 where
  found : (f : ℕ) → Source r from f → Ensured r from (true, set_fiber from f)
  lost :
      (f : ℕ)
      → NoSource r from
      → f ≡ (if r.last_error == already_fiber then r.current_fiber else 0)
      → Ensured r from (false, set_fiber from f)

refused : (f : ℕ) → (f == 0 || f == no_fiber) ≡ true → (f ≡ 0) ⊎ (f ≡ no_fiber)
refused f bad = elim (Bool-cases (f == 0)) [
  | inl z ↦ inl (ground (arith, z))
  | inr n ↦ inr (ground (arith, bad, n))
]

ensure_from-Ensured : (r : Answers) (from : FiberContext) → Ensured r from (ensure_from r from)
unfolding ensure_from
ensure_from-Ensured r from = elim (Bool-cases (from.fiber == 0)) [
  | inr e ↦ rw e (found from.fiber (own (ground (arith, e))))
  | inl e ↦ rw e (elim (Bool-cases (r.converted == 0)) [
    | inr c ↦ rw c (found r.converted (converted (ground (arith, e)) (ground (arith, c))))
    | inl c ↦ rw c (elim (Bool-cases (r.last_error == already_fiber)) [
      | inr l ↦ rw l (
          lost 0
            (record {
              none_own = ground (arith, e);
              not_converted = ground (arith, c);
              not_running = inl (ground (arith, l));
            })
            (ground (arith, l)))
      | inl l ↦ elim (Bool-cases (r.current_fiber == 0 || r.current_fiber == no_fiber)) [
        | inl bad ↦
            rw (l, bad)
              (lost r.current_fiber
                (record {
                  none_own = ground (arith, e);
                  not_converted = ground (arith, c);
                  not_running = inr (refused r.current_fiber bad);
                })
                (ground (arith, l)))
        | inr good ↦
            rw (l, good)
              (found r.current_fiber (
                running (ground (arith, e)) (ground (arith, c)) (ground (arith, l))
                  (ground (arith, good)) (ground (arith, good))))
      ]
    ])
  ])
]

swap_from-Switched :
    (r : Answers) (from to : FiberContext) {f : Bool × FiberContext}
    → Ensured r from f
    → Switched r from to (swap_from r f to)
unfolding swap_from ensure_to
swap_from-Switched r from to (lost f n k) = no_source f n k
swap_from-Switched r from to (found f s) = elim (Bool-cases (to.fiber == 0)) [
  | inr e ↦ rw e (again f s (ground (arith, e)))
  | inl e ↦ rw e (elim (Bool-cases (r.created == 0)) [
    | inl c ↦ rw c (no_target f s (ground (arith, e)) (ground (arith, c)))
    | inr c ↦ rw c (first f s (ground (arith, e)) (ground (arith, c)))
  ])
]

-- A switch succeeds exactly where both contexts get a number for their fiber. The one that is left
-- keeps its own if that is not 0, whatever an earlier switch left there; else it gets the fiber that
-- the thread is converted to, or the one that the thread runs already, if Windows says so and names one
-- that is neither 0 nor 0x1E00. The target keeps its own, and no fiber is created, or it gets the one
-- that is created. Where the target gets none, it and the fibers stay as they are. Where the context
-- that is left gets none, so do they, and its number is 0, or what was refused as a running fiber.
pub swap-Switched : (r : Answers) (from to : FiberContext) → Switched r from to (swap r from to)
unfolding swap
swap-Switched r from to = swap_from-Switched r from to (ensure_from-Ensured r from)
