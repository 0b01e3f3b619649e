-- ===== src/Iocp/Table.antt =====
-- The sockets that the multiplexer has recorded, and those that are associated with the port.
use libco.Base.{
  ℕ, zero, suc, ◌+◌, ◌-◌, ◌≤◌, ◌<◌, ◌≡◌, refl, ◌==◌, not, ◌&&◌, Bool, true, false, none, some,
  arith, if◌then◌else◌, store, ltb, inl, inr, Bool-cases, Option-cases,
}
use libco.Base.Tally.{tally, tally-store, tally-store_out, tally-pred, tally-index}
use libco.Iocp.{Iomux, is_associated, add, slot_of, del}

-- How often a socket is recorded.
abbrev pub recorded : ℕ → Iomux → ℕ
recorded fd io = tally fd io.associated_count io.associated_sockets

tally_mono : (x i n : ℕ) (a : ℕ → ℕ) → i ≤ n → tally x i a ≤ tally x n a
tally_mono x i zero a h = let e : i ≡ 0 = omega arith in rw e (omega arith)
tally_mono x i (suc n) a h = elim (Bool-cases (i == suc n)) [
  | inl e ↦ let s : i ≡ suc n = ground (arith, e) in rw s (omega arith)
  | inr e ↦ ground (arith, tally_mono x i n a, e)
]

is_associated-tally :
    (a : ℕ → ℕ) (fd i left n : ℕ)
    → n ≡ i + left
    → is_associated a fd i left ≡ ltb (tally fd i a) (tally fd n a)
unfolding is_associated
is_associated-tally a fd i zero n h = let e : n ≡ i = omega arith in rw e (ground arith)
is_associated-tally a fd i (suc left) n h =
    let e : (fd == a i) ≡ (a i == fd) = ground arith in
    rw (is_associated-tally a fd (i + 1) left n (omega arith))
      (ground (arith, tally_mono fd (i + 1) n a))

slot_of-Found :
    (a : ℕ → ℕ) (fd i left j : ℕ) → slot_of a fd i left ≡ some j → (a j ≡ fd) × (j < i + left)
unfolding slot_of
slot_of-Found a fd i zero j e = cc
slot_of-Found a fd i (suc left) j e = ground (arith, slot_of-Found a fd (i + 1) left j)

slot_of-absent :
    (a : ℕ → ℕ) (fd i left n : ℕ)
    → n ≡ i + left
    → slot_of a fd i left ≡ none
    → tally fd n a ≡ tally fd i a
unfolding slot_of
slot_of-absent a fd i zero n h e = let s : n ≡ i = omega arith in rw s refl
slot_of-absent a fd i (suc left) n h e = ground (arith, slot_of-absent a fd (i + 1) left n)

pub is_associated-recorded :
    (io : Iomux) (fd : ℕ)
    → is_associated io.associated_sockets fd 0 io.associated_count ≡ ltb 0 (recorded fd io)
is_associated-recorded io fd =
    is_associated-tally io.associated_sockets fd 0 io.associated_count io.associated_count
      (omega arith)

-- What the table is kept to: an array of 1024 entries, no socket twice.
pub record IsTable (io : Iomux) : Type 0 where
  pub fits : io.associated_count ≤ 1024
  pub distinct : (fd : ℕ) → recorded fd io ≤ 1

-- And it holds all the sockets of which `attached` holds.
pub record Lists (attached : ℕ → Bool) (io : Iomux) : Type 0 where
  pub table : IsTable io
  pub agrees : (fd : ℕ) → attached fd ≡ true → 0 < recorded fd io

del-count : (io : Iomux) (fd : ℕ) → (del io fd).1.associated_count ≤ io.associated_count
unfolding del
del-count io fd = elim (Option-cases (slot_of io.associated_sockets fd 0 io.associated_count)) [
  | inl e ↦ rw (e, del) (omega arith)
  | inr (i, e) ↦ rw (e, del) (omega arith)
]

drop_last :
    (a : ℕ → ℕ) (n fd x i : ℕ)
    → a i ≡ fd
    → i < n
    → tally x (n - 1) (store a i (a (n - 1))) + (if ltb 0 (tally fd n a) && (x == fd) then 1 else 0)
      ≡ tally x n a
drop_last a n fd x i found inside = ground (
  arith,
  tally-index fd n a i inside,
  tally-pred x n a (omega arith),
  tally-store x (n - 1) a i (a (n - 1)),
  tally-store_out x (n - 1) a i (a (n - 1)),
)

del-recorded :
    (io : Iomux) (fd x : ℕ)
    → recorded x (del io fd).1 + (if ltb 0 (recorded fd io) && (x == fd) then 1 else 0)
      ≡ recorded x io
unfolding del
del-recorded io fd x =
    elim (Option-cases (slot_of io.associated_sockets fd 0 io.associated_count)) [
      | inl e ↦
          rw (e, del)
            (ground (
              arith,
              slot_of-absent io.associated_sockets fd 0 io.associated_count io.associated_count
                  (omega arith) e,
            ))
      | inr (i, e) ↦
          let (found, inside) = slot_of-Found io.associated_sockets fd 0 io.associated_count i e in
          rw (e, del)
            (drop_last io.associated_sockets io.associated_count fd x i found
              (omega (arith, inside)))
    ]

-- A multiplexer after its creation, and then after the calls on it. `attached` says which sockets the
-- port has. To an association that it is asked for, it answers that a socket which it has already is
-- not one to associate. A socket that is closed leaves the port, but no code takes it out of the table.
pub data Reach : (ℕ → Bool) → Iomux → Type 0 where
  created : {io : Iomux} → io.associated_count ≡ 0 → Reach (λ fd. false) io
  associated :
      {attached : ℕ → Bool} {io : Iomux} (fd : ℕ)
      → Reach attached io
      → io.associated_count < 1024
      → is_associated io.associated_sockets fd 0 io.associated_count ≡ false
      → Reach (store attached fd true) (add (not (attached fd)) io fd).1
  known :
      {attached : ℕ → Bool} {io : Iomux} (fd : ℕ)
      → Reach attached io
      → is_associated io.associated_sockets fd 0 io.associated_count ≡ true
      → Reach attached (add (not (attached fd)) io fd).1
  closed :
      {attached : ℕ → Bool} {io : Iomux} (fd : ℕ)
      → Reach attached io
      → Reach (store attached fd false) io

-- `co_iomux_del` takes one entry for the socket out of the table, and keeps the others.
pub del-Lists :
    (attached : ℕ → Bool) (io : Iomux) (fd : ℕ)
    → Lists attached io
    → Lists (store attached fd false) (del io fd).1 × (recorded fd (del io fd).1 ≡ 0)
del-Lists attached io fd l = (
  record {
    table = record {
      fits = omega (arith, del-count io fd, l.table.fits);
      distinct = λ x. omega (arith, del-recorded io fd x, l.table.distinct x);
    };
    agrees = λ x h. ground (arith, h, del-recorded io fd x, l.table.distinct x, l.agrees x);
  },
  ground (arith, del-recorded io fd fd, l.table.distinct fd),
)
