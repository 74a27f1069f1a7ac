-- ===== src/Watchdog.antt =====
-- include/eosio/vm/watchdog.hpp: watchdog::guard, as the steps of its two threads. The owner's thread
-- constructs the guard and runs its destructor, the worker runs `runner`. The mutex is held by a
-- thread whose place in the code is under its lock; a step that takes the lock asks that the other
-- thread is at no such place. The clock, the mutex and the condition variable are those of C++.
pub mod Safety
pub mod Progress
use eos_vm.Prelude.{ℕ, suc, ◌≤◌, ◌≡◌, Bool, true, false}

-- state_t
pub data RunState : Type 0 where
  running interrupted stopped : RunState

-- Where the worker is: before its lock; at the test of wait_until; asleep; woken by a notification, or by
-- the end of the time, and before the lock that wait_until takes again; behind wait_until after the
-- time's end; in the callback; at its end.
pub data Worker : Type 0 where
  starting testing waiting waking expired timed_out calling finished : Worker

-- Where the owner is: before the destructor; under its lock; behind it; at the join; at its end.
pub data Owner : Type 0 where
  inside closing unlocked joining joined : Owner

-- A guard with the time and the number of calls of _callback.
pub data Guard : Type 0 where
  guard : RunState → Worker → Owner → ℕ → ℕ → Guard

unfoldable pub worker_holds : Worker → Bool
worker_holds testing = true
worker_holds timed_out = true
worker_holds calling = true
worker_holds _ = false

unfoldable pub owner_holds : Owner → Bool
owner_holds closing = true
owner_holds _ = false

unfoldable pub is_running : RunState → Bool
is_running running = true
is_running _ = false

-- _cond.notify_one()
unfoldable pub notify : Worker → Worker
notify waiting = waking
notify starting = starting
notify testing = testing
notify waking = waking
notify expired = expired
notify timed_out = timed_out
notify calling = calling
notify finished = finished

-- A step of one of the threads, or of the clock; `deadline` is _start + _duration.
pub data Step (deadline : ℕ) : Guard → Guard → Type 0 where
  ticks :
      (r : RunState) (w : Worker) (o : Owner) (t n : ℕ)
      → Step deadline (guard r w o t n) (guard r w o (suc t) n)
  locks :
      (r : RunState) (o : Owner) (t n : ℕ)
      → owner_holds o ≡ false
      → Step deadline (guard r starting o t n) (guard r testing o t n)
  waits :
      (o : Owner) (t n : ℕ)
      → Step deadline (guard running testing o t n) (guard running waiting o t n)
  leaves :
      (r : RunState) (o : Owner) (t n : ℕ)
      → is_running r ≡ false
      → Step deadline (guard r testing o t n) (guard r finished o t n)
  expires :
      (r : RunState) (o : Owner) (t n : ℕ)
      → deadline ≤ t
      → Step deadline (guard r waiting o t n) (guard r expired o t n)
  relocks :
      (r : RunState) (o : Owner) (t n : ℕ)
      → owner_holds o ≡ false
      → Step deadline (guard r waking o t n) (guard r testing o t n)
  relocks_late :
      (r : RunState) (o : Owner) (t n : ℕ)
      → owner_holds o ≡ false
      → Step deadline (guard r expired o t n) (guard r timed_out o t n)
  calls :
      (o : Owner) (t n : ℕ)
      → Step deadline (guard running timed_out o t n) (guard interrupted calling o t (suc n))
  skips :
      (r : RunState) (o : Owner) (t n : ℕ)
      → is_running r ≡ false
      → Step deadline (guard r timed_out o t n) (guard r finished o t n)
  returns :
      (r : RunState) (o : Owner) (t n : ℕ)
      → Step deadline (guard r calling o t n) (guard r finished o t n)
  enters :
      (r : RunState) (w : Worker) (t n : ℕ)
      → worker_holds w ≡ false
      → Step deadline (guard r w inside t n) (guard r w closing t n)
  stops :
      (r : RunState) (w : Worker) (t n : ℕ)
      → Step deadline (guard r w closing t n) (guard stopped w unlocked t n)
  notifies :
      (r : RunState) (w : Worker) (t n : ℕ)
      → Step deadline (guard r w unlocked t n) (guard r (notify w) joining t n)
  joins :
      (r : RunState) (t n : ℕ)
      → Step deadline (guard r finished joining t n) (guard r finished joined t n)

-- The states of a guard that was constructed at the time `start`. wait_until may also wake without a
-- notification.
pub data Reaches (start deadline : ℕ) : Guard → Type 0 where
  constructed : Reaches start deadline (guard running starting inside start 0)
  steps : {g h : Guard} → Reaches start deadline g → Step deadline g h → Reaches start deadline h
  wakes :
      (r : RunState) (o : Owner) (t n : ℕ)
      → Reaches start deadline (guard r waiting o t n)
      → Reaches start deadline (guard r waking o t n)
