-- ===== src/Program/Tame.antt =====
-- What a piece of code may do to the lines and to who is ready.
use libco.Base.{
  ℕ, ◌≡◌, ◌⊎◌, refl, sym, ap, ◌∙◌, Bool, true, false, Option, some, List, [], ◌∷◌, ◌++◌, ◌||◌, ◌==◌,
  arith, has, has-append, has-erase, erase, inl, inr, Bool-cases, eq_self,
}
use libco.Runtime.{World, ready, wake, block, set_queue, Outcome, returns, suspends}

-- From `w` to `v`, nobody leaves the ready queue or joins a line, and who becomes ready joins the ready
-- queue. The coroutine that `mine` holds of may be in any state, and may join the line `line`.
pub record Tame (mine : ℕ → Bool) (line : Option ℕ) (w v : World) : Type 0 where
  pub keeps : (x : ℕ) → has x w.sched.ready_queue ≡ true → has x v.sched.ready_queue ≡ true
  pub states :
      (x : ℕ)
      → mine x ≡ false
      → (v.routines x).state ≡ ready
      → ((w.routines x).state ≡ ready) ⊎ (has x v.sched.ready_queue ≡ true)
  pub lines :
      (x q : ℕ)
      → has x (v.queues q) ≡ true
      → (has x (w.queues q) ≡ true) ⊎ ((mine x ≡ true) × (line ≡ some q))
  pub current : v.sched.current ≡ w.sched.current

module _ (mine : ℕ → Bool) (line : Option ℕ) where
  pub same-Tame : (w : World) → Tame mine line w w
  same-Tame w = record {
    keeps = λ x h. h;
    states = λ x n h. inl h;
    lines = λ x q h. inl h;
    current = refl;
  }

  pub Tame-then : {w u v : World} → Tame mine line w u → Tame mine line u v → Tame mine line w v
  Tame-then {w} {u} {v} a b = record {
    keeps = λ x h. b.keeps x (a.keeps x h);
    states = λ x n h. elim (b.states x n h) [
      | inl s ↦ elim (a.states x n s) [ inl t ↦ inl t | inr k ↦ inr (b.keeps x k) ]
      | inr k ↦ inr k
    ];
    lines = λ x q h. elim (b.lines x q h) [ inl k ↦ a.lines x q k | inr m ↦ inr m ];
    current = b.current ∙ a.current;
  }

  -- What touches neither.
  pub kept-Tame :
      (w v : World)
      → v.sched.ready_queue ≡ w.sched.ready_queue
      → v.sched.current ≡ w.sched.current
      → v.queues ≡ w.queues
      → ((x : ℕ) → mine x ≡ false → (v.routines x).state ≡ (w.routines x).state)
      → Tame mine line w v
  kept-Tame w v r c q s = record {
    keeps = λ x h. rw r h;
    states = λ x n h. inl (sym (s x n) ∙ h);
    lines = λ x l h. inl (rw q at h);
    current = c;
  }

  has-snoc : (x p : ℕ) (xs : List ℕ) → has x xs ≡ true → has x (xs ++ p ∷ []) ≡ true
  has-snoc x p xs h = has-append x xs (p ∷ []) ∙ rw h refl

  pub has-last : (p : ℕ) (xs : List ℕ) → has p (xs ++ p ∷ []) ≡ true
  has-last p [] = ground (arith, eq_self p)
  has-last p (x ∷ xs) = ground (arith, has-last p xs)

  -- A coroutine is made ready.
  pub wake-Tame : (w : World) (p : ℕ) → Tame mine line w (wake w p)
  unfolding wake
  wake-Tame w p = record {
    keeps = λ x h. has-snoc x p w.sched.ready_queue h;
    states = λ x n h. elim (Bool-cases (p == x)) [
      | inl e ↦
          let it : p ≡ x = ground (arith, e) in inr (rw (← it) (has-last p w.sched.ready_queue))
      | inr o ↦ inl (rw o at h)
    ];
    lines = λ x q h. inl h;
    current = refl;
  }

  -- Some leave a line.
  pub shrink-Tame :
      (w : World) (l : ℕ) (rest : List ℕ)
      → ((x : ℕ) → has x rest ≡ true → has x (w.queues l) ≡ true)
      → Tame mine line w (set_queue w l rest)
  shrink-Tame w l rest k = record {
    keeps = λ x h. h;
    states = λ x n h. inl h;
    lines = λ x q h. elim (Bool-cases (l == q)) [
      | inl e ↦ let it : l ≡ q = ground (arith, e) in inl (rw (← it) (k x (rw e at h)))
      | inr o ↦ inl (rw o at h)
    ];
    current = refl;
  }

  pub erase-sub : (x p : ℕ) (xs : List ℕ) → has x (erase p xs) ≡ true → has x xs ≡ true
  erase-sub x p xs h = elim (Bool-cases (has x xs)) [
    | inl e ↦ e
    | inr o ↦ let no_way = sym (has-erase x p xs o) ∙ h in absurd (cc no_way)
  ]

  -- Its first is taken off a line, and made ready.
  pub pop-Tame :
      (w u : World) (l p : ℕ) (rest : List ℕ)
      → w.queues l ≡ p ∷ rest
      → Tame mine line (set_queue w l rest) u
      → Tame mine line w (wake u p)
  pop-Tame w u l p rest e t =
      Tame-then (Tame-then (shrink-Tame w l rest (λ x h. rw e (ground (arith, h)))) t)
        (wake-Tame u p)

-- The running coroutine joins its line.
pub block-Tame : (w : World) (p l : ℕ) → Tame (λ x. p == x) (some l) w (block w l p)
unfolding block
block-Tame w p l = record {
  keeps = λ x h. h;
  states = λ x n h. inl (rw n at h);
  lines = λ x q h. elim (Bool-cases (l == q)) [
    | inl e ↦
        let it : l ≡ q = ground (arith, e) in
        let found : (has x (w.queues l) || has x (p ∷ [])) ≡ true =
          sym (has-append x (w.queues l) (p ∷ [])) ∙ (rw e at h) in
        elim (Bool-cases (has x (w.queues l))) [
          | inl there ↦ inl (rw (← it) there)
          | inr new ↦ inr (ground (arith, found, new), ap some it)
        ]
    | inr o ↦ inl (rw o at h)
  ];
  current = refl;
}

-- A call that suspends its coroutine does not leave it READY outside the ready queue.
abbrev pub Acts : (p : ℕ) → Option ℕ → World → Outcome → Type 0
Acts p line w (returns e v) = Tame (λ x. p == x) line w v
Acts p line w (suspends v) =
    Tame (λ x. p == x) line w v × ((v.routines p).state ≡ ready → has p v.sched.ready_queue ≡ true)
