-- ===== src/Context.antt =====
-- libco/src/platform/linux/context.c: the guards of a context and the stack that it records.
-- What `getcontext` and `swapcontext` do to the registers is not modelled, nor are the two words that
-- init writes at the stack's base.
pub mod Fibers
pub mod Swap
pub mod Entry
mod Tests
use libco.Base.{ℕ, Bool, none, some, ◌==◌, ◌||◌, if◌then◌else◌}
use libco.Runtime.{Context, Error, ok, inval, platform}

-- `co_context_init`, where `getcontext` says whether that call succeeds. Neither the context nor the
-- stack is NULL here: the caller has them.
unfoldable pub init : (getcontext : Bool) → Context → (stack stack_size entry : ℕ) → Error × Context
init getcontext ctx stack stack_size entry =
    if entry == 0 || stack == 0 || stack_size == 0 then (inval, ctx) else (
      if getcontext then ok else platform,
      record { stack_base = some stack; stack_size = stack_size },
    )

-- `co_context_destroy`.
unfoldable pub destroy : Context → Context
destroy ctx = record { stack_base = none; stack_size = 0 }
