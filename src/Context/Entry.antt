-- ===== src/Context/Entry.antt =====
-- libco/src/platform/linux/context.c: how a new context finds its entry function. `makecontext` passes
-- two 32-bit integers on, so the address of the context goes through two halves. Memory is a
-- function from addresses to words of 8 bytes.
use libco.Base.{
  ℕ, ◌+◌, ◌*◌, ◌/◌, ◌%◌, ◌^◌, ◌<◌, ◌≡◌, ◌≢◌, refl, ◌==◌, ◌||◌, Bool, false, Option, none, some,
  arith, if◌then◌else◌, store, word, inl, inr, Bool-cases, eq_self,
}
use libco.Runtime.{Context, Error, ok, platform}
use libco.Context.{init}

-- The words that `co_context_init` writes at the base of the stack.
unfoldable pub write_entry : (memory : ℕ → ℕ) → (stack entry arg : ℕ) → (ℕ → ℕ)
write_entry memory stack entry arg = store (store memory stack entry) (stack + 8) arg

-- The two halves of an address, the low one first.
unfoldable pub halves : (ptr : ℕ) → ℕ × ℕ
halves ptr = (ptr % 2 ^ 32, ptr / 2 ^ 32 % 2 ^ 32)

-- The address of two halves, which share no bit.
unfoldable pub joined : (arg_low arg_high : ℕ) → ℕ
joined arg_low arg_high = (arg_high * 2 ^ 32) % word + arg_low

-- `ucontext_entry_wrapper`: the function that it calls, with its argument. None is a failed assertion,
-- or a stack at NULL.
unfoldable pub entry_wrapper :
    (contexts : ℕ → Context) → (memory : ℕ → ℕ) → (arg_low arg_high : ℕ) → Option (ℕ × ℕ)
unfolding joined
entry_wrapper contexts memory arg_low arg_high =
    let ctx = joined arg_low arg_high in
    if ctx == 0 then none else elim (contexts ctx).stack_base [
      | none ↦ none
      | some base ↦ if memory base == 0 then none else some (memory base, memory (base + 8))
    ]

-- `co_context_get_current` of a context that is not NULL.
unfoldable pub get_current : (getcontext : Bool) → Context → Error × Context
get_current getcontext ctx =
    if getcontext then (ok, record { stack_base = none; stack_size = 0 }) else (platform, ctx)

-- `co_context_swap` between two contexts, as its caller sees it, when it is resumed.
unfoldable pub swap : (swapcontext : Bool) → Error
swap swapcontext = if swapcontext then ok else platform

joined-halves : (ptr : ℕ) → ptr < word → joined (halves ptr).0 (halves ptr).1 ≡ ptr
unfolding joined halves
joined-halves ptr h = omega (arith, h)

init-checked :
    (getcontext : Bool) (ctx : Context) (stack stack_size entry : ℕ)
    → (init getcontext ctx stack stack_size entry).0 ≡ ok
    → (entry == 0 || stack == 0 || stack_size == 0) ≡ false
unfolding init
init-checked getcontext ctx stack stack_size entry =
    elim (Bool-cases (entry == 0 || stack == 0 || stack_size == 0)) [
      | inl bad ↦ rw bad (λ e. absurd cc)
      | inr good ↦ rw good (λ e. refl)
    ]

written :
    (memory : ℕ → ℕ) (stack entry arg : ℕ)
    → (write_entry memory stack entry arg stack ≡ entry)
      × (write_entry memory stack entry arg (stack + 8) ≡ arg)
unfolding write_entry
written memory stack entry arg = (ground arith, ground arith)

-- A context at an address that fits a pointer: if its init succeeds, then the wrapper that gets the two
-- halves of its address calls the entry function that init got, with the argument that it got.
pub entry_wrapper-init :
    (getcontext : Bool) (contexts : ℕ → Context) (memory : ℕ → ℕ)
    (ptr stack stack_size entry arg : ℕ)
    → ptr ≢ 0
    → ptr < word
    → (init getcontext (contexts ptr) stack stack_size entry).0 ≡ ok
    → entry_wrapper
        (store contexts ptr (init getcontext (contexts ptr) stack stack_size entry).1)
        (write_entry memory stack entry arg)
        (halves ptr).0
        (halves ptr).1
      ≡ some (entry, arg)
unfolding init entry_wrapper
entry_wrapper-init getcontext contexts memory ptr stack stack_size entry arg h k e =
    let good = init-checked getcontext (contexts ptr) stack stack_size entry e in
    let there : (ptr == 0) ≡ false = ground (arith, h) in
    let callable : (entry == 0) ≡ false = ground (arith, good) in
    let (first, second) = written memory stack entry arg in
    rw (joined-halves ptr k, there, eq_self ptr, good, first, second, callable) refl
