-- ===== src/Coxx/Release.antt =====
-- What an owner's release of a task's state does, and a spawn that throws.
use libco.Base.{
  ℕ, ◌+◌, ◌-◌, ◌≡◌, refl, ap, ◌∙◌, ◌==◌, false, Option, none, some, List, ◌∷◌, arith, if◌then◌else◌,
  inl, inr, Bool-cases, erase_head, erase_second, erase,
}
use libco.Base.Tally.{occ}
use libco.Runtime.{World}
use libco.Coxx.Task.{Shared, Tasks, set_shared, share, release, spawn, spawn_wrapped, make_state}

pub release-owners : (s : Tasks) (t : ℕ) → ((release s t).shared t).owners ≡ (s.shared t).owners - 1
unfolding release
release-owners s t = elim (Bool-cases ((s.shared t).owners == 1)) [
  | inl last ↦ rw last (ground (arith, last))
  | inr more ↦ rw more (ground arith)
]

pub release-destroyed :
    (s : Tasks) (t : ℕ)
    → occ t (release s t).destroyed
      ≡ occ t s.destroyed + (if (s.shared t).owners == 1 then 1 else 0)
unfolding release
release-destroyed s t = elim (Bool-cases ((s.shared t).owners == 1)) [
  | inl last ↦ rw last (ground arith)
  | inr more ↦ rw more (omega arith)
]

-- The rest of what a release does.
release-objects :
    (s : Tasks) (t : ℕ)
    → ((release s t).objects ≡ (
        if (s.shared t).owners == 1
        then erase (s.shared t).cond (erase (s.shared t).mutex s.objects)
        else s.objects))
      × ((release s t).wrappers ≡ s.wrappers)
      × (((release s t).shared t).mutex ≡ (s.shared t).mutex)
      × (((release s t).shared t).cond ≡ (s.shared t).cond)
unfolding release
release-objects s t = elim (Bool-cases ((s.shared t).owners == 1)) [
  | inl last ↦ rw last (refl, refl, ground arith, ground arith)
  | inr more ↦ rw more (refl, refl, ground arith, ground arith)
]

released_twice :
    (s : Tasks) (t : ℕ)
    → (s.shared t).owners ≡ 2
    → ((release (release s t) t).objects
        ≡ erase (s.shared t).cond (erase (s.shared t).mutex s.objects))
      × ((release (release s t) t).wrappers ≡ s.wrappers)
released_twice s t two =
    let (once, same, m, c) = release-objects s t in
    let (twice, same', m', c') = release-objects (release s t) t in
    let one : ((release s t).shared t).owners ≡ 1 = omega (arith, release-owners s t, two) in
    (twice ∙ rw (one, m, c, once, two) refl, same' ∙ same)

given_back :
    (s : Tasks) (t a b : ℕ) (xs ys : List ℕ)
    → (s.shared t).owners ≡ 2
    → (s.shared t).mutex ≡ a
    → (s.shared t).cond ≡ b
    → s.objects ≡ b ∷ a ∷ xs
    → s.wrappers ≡ ys
    → ((release (release s t) t).objects ≡ xs) × ((release (release s t) t).wrappers ≡ ys)
given_back s t a b xs ys two m c o y =
    let (objects, wrappers) = released_twice s t two in
    (objects ∙ rw (m, c, o, erase_second a b xs, erase_head b xs) refl, wrappers ∙ y)

-- A spawn that throws leaves no object and no wrapper behind.
pub spawn-objects :
    (mutex cond : Option ℕ) (answer : Option ℕ × World) (t wrapper : ℕ) (s v : Tasks)
    → spawn mutex cond t wrapper answer s ≡ (none, v)
    → (v.objects ≡ s.objects) × (v.wrappers ≡ s.wrappers)
unfolding spawn make_state spawn_wrapped
spawn-objects none none answer t wrapper s v h =
    rw⁻¹ (ap (λ (r : Option ℕ × Tasks). r.1) h) (refl, refl)
spawn-objects (some a) none answer t wrapper s v h =
    rw⁻¹ (ap (λ (r : Option ℕ × Tasks). r.1) h) (erase_head a s.objects, refl)
spawn-objects none (some b) answer t wrapper s v h =
    rw⁻¹ (ap (λ (r : Option ℕ × Tasks). r.1) h) (erase_head b s.objects, refl)
spawn-objects (some a) (some b) (some p, w) t wrapper s v h = absurd cc
spawn-objects (some a) (some b) (none, w) t wrapper s v h =
    let x : Shared = record { mutex = a; cond = b; done = false; exception = none; owners = 1 } in
    let s1 =
      set_shared (record s { objects = b ∷ a ∷ s.objects; wrappers = wrapper ∷ s.wrappers }) t x in
    let s2 = record (share s1 t) { world = w; wrappers = erase wrapper (wrapper ∷ s.wrappers) } in
    rw⁻¹ (ap (λ (r : Option ℕ × Tasks). r.1) h) (
      given_back s2 t a b s.objects s.wrappers (ground arith) (ground arith) (ground arith) refl
        (erase_head wrapper s.wrappers))
