-- ===== src/Runtime/Samples.antt =====
-- Worlds for the tests: coroutines at any address, of which 50 is running.
use libco.Base.{ℕ, true, false, none, some, []}
use libco.StackPool.{no_stats}
use libco.Runtime.{Routine, Scheduler, Channel, World, running}

abbrev pub routine : Routine
routine = record {
  id = 0;
  state = running;
  context = record { stack_base = none; stack_size = 0 };
  stack_base = none;
  stack_size = 0;
  entry = 1;
  arg = 0;
  scheduler = true;
  wakeup_time = 0;
  chan_data = 0;
  cond_wait_queue = none;
  timed_out = false;
  io_waiting = false;
  result = 0;
}

abbrev pub scheduler : Scheduler
scheduler = record {
  ready_queue = [];
  timer_heap = record { heap = λ _. 0; count = 0; capacity = 16 };
  current = some 50;
  stack_pool = record {
    stack_size = 131072;
    stacks = λ _. 0;
    capacity = 16;
    count = 0;
    stats = no_stats;
  };
  default_stack_size = 131072;
  running = true;
  should_stop = false;
  total_routines = 3;
  active_routines = 3;
  switch_count = 0;
  waiting_io_count = 0;
  next_id = 4;
}

abbrev pub channel : Channel
channel = record {
  elem_size = 8;
  capacity = 2;
  buffer = λ _. 0;
  head = 0;
  tail = 0;
  count = 0;
  send_queue = 101;
  recv_queue = 102;
  closed = false;
}

abbrev pub sample : World
sample = record {
  routines = λ _. routine;
  sched = scheduler;
  active = true;
  queues = λ _. [];
  mutexes = λ _. record { locked = false; owner = none };
  channels = λ _. channel;
  cells = λ a. a;
}

-- The same with another coroutine running.
abbrev pub switch : World → ℕ → World
switch w p = record w { sched = record w.sched { current = some p } }
