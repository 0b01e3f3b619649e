-- ===== src/Queue.antt =====
-- libco/src/co_queue.h: the intrusive circular doubly linked list.
-- A node is an address, and a sentinel head is one too. The two link fields of all the nodes in
-- memory are two functions of the address, so that aliasing between nodes is that of the program.
pub mod Chain
pub mod Deque
pub mod Iterate
pub mod Refine
pub mod Relink
pub mod Separate
mod Tests
use libco.Base.{ℕ, Bool, not, Option, none, some, ◌==◌, if◌then◌else◌, store, inc, dec}

-- The `next` and `prev` fields of every `co_queue_node_t`.
pub record Links : Type 0 where
  pub next : ℕ → ℕ
  pub prev : ℕ → ℕ

abbrev pub set_next : Links → ℕ → ℕ → Links
set_next m a v = record m { next = store m.next a v }

abbrev pub set_prev : Links → ℕ → ℕ → Links
set_prev m a v = record m { prev = store m.prev a v }

-- `co_queue_t`: the address of its sentinel, and the cached size.
pub record Queue : Type 0 where
  pub head : ℕ
  pub size : ℕ

unfoldable pub node_init : Links → ℕ → Links
node_init m node = set_prev (set_next m node node) node node

unfoldable pub node_is_linked : Links → ℕ → Bool
node_is_linked m node = not (m.next node == node)

unfoldable pub init : Links → ℕ → Links × Queue
unfolding node_init
init m head = (node_init m head, record { head = head; size = 0 })

unfoldable pub empty : Queue → Bool
empty q = q.size == 0

unfoldable pub size : Queue → ℕ
size q = q.size

unfoldable pub push_back : Links → Queue → ℕ → Links × Queue
push_back m q node =
    let tail = m.prev q.head in
    let m1 = set_next m node q.head in
    let m2 = set_prev m1 node tail in
    let m3 = set_next m2 tail node in
    let m4 = set_prev m3 q.head node in (m4, record q { size = inc q.size })

unfoldable pub push_front : Links → Queue → ℕ → Links × Queue
push_front m q node =
    let front = m.next q.head in
    let m1 = set_next m node front in
    let m2 = set_prev m1 node q.head in
    let m3 = set_prev m2 front node in
    let m4 = set_next m3 q.head node in (m4, record q { size = inc q.size })

-- The links part of `co_queue_remove`, past its guard.
unfoldable pub unlink : Links → ℕ → Links
unfolding node_init
unlink m node =
    let m1 = set_next m (m.prev node) (m.next node) in
    let m2 = set_prev m1 (m1.next node) (m1.prev node) in node_init m2 node

unfoldable pub remove : Links → Queue → ℕ → Links × Queue
unfolding node_is_linked unlink
remove m q node =
    if not (node_is_linked m node) then (m, q) else (unlink m node, record q { size = dec q.size })

unfoldable pub pop_front : Links → Queue → Option ℕ × Links × Queue
unfolding empty remove
pop_front m q =
    if empty q
    then (none, m, q)
    else (let node = m.next q.head in let (m', q') = remove m q node in (some node, m', q'))

unfoldable pub front : Links → Queue → Option ℕ
unfolding empty
front m q = if empty q then none else some (m.next q.head)

unfoldable pub back : Links → Queue → Option ℕ
unfolding empty
back m q = if empty q then none else some (m.prev q.head)
