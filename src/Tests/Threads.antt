-- ===== src/Tests/Threads.antt =====
-- A guard of the watchdog from the time 0 to the time 1, at concrete states.
use eos_vm.Prelude.{ℕ, ◌≡◌, refl, arith}
use eos_vm.Watchdog.{
  running, interrupted, stopped, waiting, calling, inside, unlocked, guard, ticks, locks, waits,
  enters, stops, worker_holds, owner_holds, Reaches, constructed, steps,
}
use eos_vm.Watchdog.Safety.{IsSound, Reaches-IsSound}
use eos_vm.Watchdog.Progress.{Leads, Joins, destructor_returns, guard_calls}

-- The worker sleeps at the deadline.
at_deadline : Reaches 0 1 (guard running waiting inside 1 0)
unfolding owner_holds
at_deadline =
    steps (steps (steps constructed (locks running inside 0 0 refl)) (waits inside 0 0))
      (ticks running waiting inside 0 0)

-- The destructor has set the state while the worker sleeps.
stopped_asleep : Reaches 0 1 (guard stopped waiting unlocked 1 0)
unfolding worker_holds
stopped_asleep =
    steps (steps at_deadline (enters running waiting 1 0 refl)) (stops running waiting 1 0)

Reaches-IsSound_run : IsSound 1 (guard stopped waiting unlocked 1 0)
Reaches-IsSound_run = Reaches-IsSound stopped_asleep

destructor_returns_run : Joins 1 (guard stopped waiting unlocked 1 0) 1
destructor_returns_run = destructor_returns stopped waiting unlocked 1 0 stopped_asleep

guard_calls_run :
    (◌≡◌ {A = ℕ} 0 0)
    × Leads 1 (guard running waiting inside 1 0) (guard interrupted calling inside 1 1)
guard_calls_run = guard_calls waiting 1 0 at_deadline (omega arith)
