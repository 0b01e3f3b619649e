-- ===== src/Context/Fibers.antt =====
-- libco/src/platform/windows/context.c: contexts as fibers of Windows. NULL is 0. A parameter gives
-- what the calls of Windows answer. A switch itself is not modelled: `swap` ends where it begins.
use libco.Base.{ℕ, ◌==◌, ◌||◌, not, Bool, true, false, List, [], ◌∷◌, if◌then◌else◌}
use libco.Runtime.{Error, ok, inval, platform}

-- `co_context_t` of Windows.
pub record FiberContext : Type 0 where
  pub fiber : ℕ
  pub stack_base : ℕ
  pub stack_size : ℕ
  pub entry : ℕ
  pub arg : ℕ

-- `co_context_init` of a context that is not NULL.
unfoldable pub init : FiberContext → (stack_base stack_size entry arg : ℕ) → Error × FiberContext
init ctx stack_base stack_size entry arg = if entry == 0 then (inval, ctx) else (
  ok,
  record { fiber = 0; stack_base = stack_base; stack_size = stack_size; entry = entry; arg = arg },
)

-- The error of a conversion that says that the thread is a fiber already.
abbrev pub already_fiber : ℕ
already_fiber = 1280

-- What `GetCurrentFiber` answers in a thread that is no fiber.
abbrev pub no_fiber : ℕ
no_fiber = 7680

abbrev pub set_fiber : FiberContext → ℕ → FiberContext
set_fiber ctx f = record ctx { fiber = f }

-- What Windows answers to ConvertThreadToFiber, GetLastError, GetCurrentFiber and CreateFiberEx.
pub record Answers : Type 0 where
  pub converted : ℕ
  pub last_error : ℕ
  pub current_fiber : ℕ
  pub created : ℕ

-- The context that is left gets the fiber of the thread, where it has none: false if that fails.
unfoldable pub ensure_from : Answers → FiberContext → Bool × FiberContext
ensure_from r from =
    if not (from.fiber == 0)
    then (true, from)
    else if not (r.converted == 0)
    then (true, set_fiber from r.converted)
    else if r.last_error == already_fiber
    then (not (r.current_fiber == 0 || r.current_fiber == no_fiber), set_fiber from r.current_fiber)
    else (false, set_fiber from 0)

-- The target gets a fiber where it has none: the result, the context, and the fibers created.
unfoldable pub ensure_to : Answers → FiberContext → Error × FiberContext × List ℕ
ensure_to r to =
    if not (to.fiber == 0)
    then (ok, to, [])
    else if r.created == 0
    then (platform, to, [])
    else (ok, set_fiber to r.created, r.created ∷ [])

unfoldable pub swap_from :
    Answers
    → Bool × FiberContext
    → (to : FiberContext) → Error × FiberContext × FiberContext × List ℕ
unfolding ensure_to
swap_from r (false, from) to = (platform, from, to, [])
swap_from r (true, from) to = let (e, later, fibers) = ensure_to r to in (e, from, later, fibers)

-- `co_context_swap` up to its switch, between two contexts: OK where it switches.
unfoldable pub swap :
    Answers → (from to : FiberContext) → Error × FiberContext × FiberContext × List ℕ
unfolding swap_from ensure_from
swap r from to = swap_from r (ensure_from r from) to

-- `co_context_destroy`: the context, and the fibers deleted.
unfoldable pub destroy : FiberContext → FiberContext × List ℕ
destroy ctx = (
  record ctx { fiber = 0; entry = 0; arg = 0 },
  if not (ctx.fiber == 0) then ctx.fiber ∷ [] else [],
)

-- `co_convert_thread_to_fiber`, where `already` says whether the thread is a fiber.
unfoldable pub convert_thread : (already : Bool) → (converted : ℕ) → Error
convert_thread already converted = if already then ok else if converted == 0 then platform else ok
