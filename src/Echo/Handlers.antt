-- ===== src/Echo/Handlers.antt =====
-- A turn of a client's handler in the echo server (examples/demo_echo_server.c).
use libco.Base.{
  ℕ, zero, suc, ◌+◌, ◌==◌, ◌≡◌, ◌≤◌, refl, sym, ap, ◌∙◌, true, Option, none, some, List, [], ◌∷◌,
  ◌++◌, length, arith, Bool-cases, inl, inr,
}
use mathlib.Core.List.{append-nil, append_assoc}
use libco.Base.Tally.{occ}
use libco.Echo.{
  Place, entry, reading, writing, returned, Handler, Globals, closesocket, cleanup, after_read,
  sent_of, after_write, go_on, client_handler_routine, handler_at,
}
use libco.Echo.Balance.{is_active, one, sockets_of, contexts_of, actives, IsEcho, AllEcho}

-- A turn of one handler, on the counts.
record Handled (h : Handler) (g : Globals) (x : Handler) (t : Globals) : Type 0 where
  same_opened : t.opened ≡ g.opened
  same_allocated : t.allocated ≡ g.allocated
  sockets :
      (a : ℕ) → occ a t.closed + sockets_of a (x ∷ []) ≡ occ a g.closed + sockets_of a (h ∷ [])
  contexts :
      (a : ℕ) → occ a t.freed + contexts_of a (x ∷ []) ≡ occ a g.freed + contexts_of a (h ∷ [])
  active :
      one (is_active h.place) ≤ g.active_clients
      → t.active_clients + one (is_active h.place) ≡ g.active_clients + one (is_active x.place)
  echo : IsEcho x

sent_of-split : (n : ℕ) (xs : List ℕ) → (rest : List ℕ) × (xs ≡ sent_of n xs ++ rest)
sent_of-split zero xs = (xs, refl)
sent_of-split (suc n) [] = ([], refl)
sent_of-split (suc n) (x ∷ xs) =
    let (rest, e) = sent_of-split n xs in (rest, ap (λ (ys : List ℕ). x ∷ ys) e)

sent_of-length : (xs : List ℕ) → sent_of (length xs) xs ≡ xs
sent_of-length [] = refl
sent_of-length (x ∷ xs) = ap (λ (ys : List ℕ). x ∷ ys) (sent_of-length xs)

cleanup-Handled :
    (h : Handler) (g : Globals) (sent rest : List ℕ)
    → is_active h.place ≡ true
    → h.received ≡ sent ++ rest
    → let (x, t) = cleanup (record h { echoed = sent }) g in Handled h g x t
unfolding cleanup closesocket
cleanup-Handled h g sent rest a e = record {
  same_opened = refl;
  same_allocated = refl;
  sockets = λ x. ground arith;
  contexts = λ x. ground arith;
  active = λ k. ground arith;
  echo = (rest, e);
}

go_on-Handled :
    (p : Place) (received : Option (List ℕ)) (sent : Option ℕ) (h : Handler) (g : Globals)
    → h.place ≡ p
    → IsEcho h
    → let (x, t) = go_on p received sent h g in Handled h g x t
unfolding go_on after_read after_write
go_on-Handled entry received sent h g e k = record {
  same_opened = refl;
  same_allocated = refl;
  sockets = λ x. rw e refl;
  contexts = λ x. rw e refl;
  active = λ a. rw e (omega arith);
  echo = rw e at k;
}
go_on-Handled reading none sent h g e k = cleanup-Handled h g h.echoed [] (rw e refl) (rw e at k)
go_on-Handled reading (some []) sent h g e k =
    cleanup-Handled h g h.echoed [] (rw e refl) (rw e at k)
go_on-Handled reading (some (b ∷ bs)) sent h g e k = record {
  same_opened = refl;
  same_allocated = refl;
  sockets = λ x. rw e refl;
  contexts = λ x. rw e refl;
  active = λ a. rw e (omega arith);
  echo = ap (λ (xs : List ℕ). xs ++ b ∷ bs) ((rw e at k) ∙ append-nil h.echoed);
}
go_on-Handled (writing buffer) received none h g e k =
    cleanup-Handled h g h.echoed buffer (rw e refl) (rw e at k)
go_on-Handled (writing buffer) received (some n) h g e k = elim (Bool-cases (n == length buffer)) [
  | inl whole ↦
      let n_all : n ≡ length buffer = ground (arith, whole) in
      let all : sent_of n buffer ≡ buffer =
        ap (λ m. sent_of m buffer) n_all ∙ sent_of-length buffer in
      rw whole (record {
        same_opened = refl;
        same_allocated = refl;
        sockets = λ x. rw e refl;
        contexts = λ x. rw e refl;
        active = λ a. rw e (omega arith);
        echo =
            (rw e at k)
            ∙ ap (λ (xs : List ℕ). h.echoed ++ xs) (sym all)
            ∙ sym (append-nil (h.echoed ++ sent_of n buffer));
      })
  | inr part ↦
      let (rest, split) = sent_of-split n buffer in
      rw part (
        cleanup-Handled h g (h.echoed ++ sent_of n buffer) rest (rw e refl) (
          (rw e at k)
          ∙ ap (λ (xs : List ℕ). h.echoed ++ xs) split
          ∙ sym (append_assoc h.echoed (sent_of n buffer) rest)))
]
go_on-Handled returned received sent h g e k = record {
  same_opened = refl;
  same_allocated = refl;
  sockets = λ x. refl;
  contexts = λ x. refl;
  active = λ a. refl;
  echo = k;
}

client_handler_routine-Handled :
    (received : Option (List ℕ)) (sent : Option ℕ) (h : Handler) (g : Globals)
    → IsEcho h
    → let (x, t) = client_handler_routine received sent h g in Handled h g x t
unfolding client_handler_routine
client_handler_routine-Handled received sent h g k = go_on-Handled h.place received sent h g refl k

-- A turn of the handler at an index, on the counts of all.
pub record AllHandled (hs : List Handler) (g : Globals) (xs : List Handler) (t : Globals)
    : Type 0 where
  pub same_opened : t.opened ≡ g.opened
  pub same_allocated : t.allocated ≡ g.allocated
  pub sockets : (a : ℕ) → occ a t.closed + sockets_of a xs ≡ occ a g.closed + sockets_of a hs
  pub contexts : (a : ℕ) → occ a t.freed + contexts_of a xs ≡ occ a g.freed + contexts_of a hs
  pub active :
      actives hs ≤ g.active_clients → t.active_clients + actives hs ≡ g.active_clients + actives xs
  pub echo : AllEcho xs

pub handler_at-AllHandled :
    (i : ℕ) (received : Option (List ℕ)) (sent : Option ℕ) (hs : List Handler) (g : Globals)
    → AllEcho hs
    → let (xs, t) = handler_at i received sent hs g in AllHandled hs g xs t
unfolding handler_at
handler_at-AllHandled i received sent [] g k = record {
  same_opened = refl;
  same_allocated = refl;
  sockets = λ a. refl;
  contexts = λ a. refl;
  active = λ a. refl;
  echo = k;
}
handler_at-AllHandled zero received sent (h ∷ hs) g (k, ks) =
    let r = client_handler_routine-Handled received sent h g k in
    record {
      same_opened = r.same_opened;
      same_allocated = r.same_allocated;
      sockets = λ a. omega (arith, r.sockets a);
      contexts = λ a. omega (arith, r.contexts a);
      active = λ a. omega (arith, r.active (omega arith));
      echo = (r.echo, ks);
    }
handler_at-AllHandled (suc i) received sent (h ∷ hs) g (k, ks) =
    let r = handler_at-AllHandled i received sent hs g ks in
    record {
      same_opened = r.same_opened;
      same_allocated = r.same_allocated;
      sockets = λ a. omega (arith, r.sockets a);
      contexts = λ a. omega (arith, r.contexts a);
      active = λ a. omega (arith, r.active (omega arith));
      echo = (k, r.echo);
    }
