-- ===== src/Watchdog/Progress.antt =====
-- The destructor of a guard returns, and a guard whose time is over calls the callback.
use eos_vm.Prelude.{ℕ, suc, ◌≤◌, ◌≡◌, refl, sym, true, false}
use mathlib.Core.Path.{subst}
use eos_vm.Watchdog.{
  RunState, running, interrupted, stopped, Worker, starting, testing, waiting, waking, expired,
  timed_out, calling, finished, Owner, inside, closing, unlocked, joining, joined, Guard, guard,
  worker_holds, owner_holds, is_running, notify, Step, locks, waits, leaves, expires, relocks,
  relocks_late, calls, skips, returns, enters, stops, notifies, joins, Reaches,
}
use eos_vm.Watchdog.Safety.{
  is_early, is_waiting, Together, IsSound, Reaches-IsSound, notify-is_waiting,
}

-- Steps one after the other.
pub data Leads (deadline : ℕ) (g : Guard) : Guard → Type 0 where
  start : Leads deadline g g
  goes : {h k : Guard} → Leads deadline g h → Step deadline h k → Leads deadline g k

join_leads :
    {deadline : ℕ} {g h k : Guard} → Leads deadline g h → Leads deadline h k → Leads deadline g k
join_leads p start = p
join_leads p (goes q s) = goes (join_leads p q) s

-- A stopped worker that does not sleep finishes.
worker_finishes :
    (deadline : ℕ) (w : Worker) (t n : ℕ)
    → is_waiting w ≡ false
    → Leads deadline (guard stopped w joining t n) (guard stopped finished joining t n)
unfolding is_waiting owner_holds is_running
worker_finishes d starting t n h =
    goes (goes start (locks stopped joining t n refl)) (leaves stopped joining t n refl)
worker_finishes d testing t n h = goes start (leaves stopped joining t n refl)
worker_finishes d waiting t n h = cc
worker_finishes d waking t n h =
    goes (goes start (relocks stopped joining t n refl)) (leaves stopped joining t n refl)
worker_finishes d expired t n h =
    goes (goes start (relocks_late stopped joining t n refl)) (skips stopped joining t n refl)
worker_finishes d timed_out t n h = goes start (skips stopped joining t n refl)
worker_finishes d calling t n h = goes start (returns stopped joining t n)
worker_finishes d finished t n h = start

-- From the place in the destructor on.
joins_later :
    (deadline : ℕ) (w : Worker) (t n : ℕ)
    → is_waiting w ≡ false
    → Leads deadline (guard stopped w joining t n) (guard stopped finished joined t n)
joins_later d w t n h = goes (worker_finishes d w t n h) (joins stopped t n)

unlocked_later :
    (deadline : ℕ) (w : Worker) (t n : ℕ)
    → Leads deadline (guard stopped w unlocked t n) (guard stopped finished joined t n)
unlocked_later d w t n =
    join_leads (goes start (notifies stopped w t n))
      (joins_later d (notify w) t n (notify-is_waiting w))

entered_later :
    (deadline : ℕ) (r : RunState) (w : Worker) (t n : ℕ)
    → worker_holds w ≡ false
    → Leads deadline (guard r w inside t n) (guard stopped finished joined t n)
entered_later d r w t n h =
    join_leads (goes (goes start (enters r w t n h)) (stops r w t n)) (unlocked_later d w t n)

-- A guard joins, without the clock, without a wake-up that nothing notified.
abbrev pub Joins : ℕ → Guard → ℕ → Type 0
Joins deadline g t = (r : RunState) × (n : ℕ) × Leads deadline g (guard r finished joined t n)

worker_releases :
    (deadline : ℕ) (r : RunState) (w : Worker) (t n : ℕ) → Joins deadline (guard r w inside t n) t
unfolding worker_holds is_running
worker_releases d r starting t n = (stopped, n, entered_later d r starting t n refl)
worker_releases d running testing t n = (
  stopped,
  n,
  join_leads (goes start (waits inside t n)) (entered_later d running waiting t n refl),
)
worker_releases d interrupted testing t n = (
  stopped,
  n,
  join_leads (goes start (leaves interrupted inside t n refl))
      (entered_later d interrupted finished t n refl),
)
worker_releases d stopped testing t n = (
  stopped,
  n,
  join_leads (goes start (leaves stopped inside t n refl))
      (entered_later d stopped finished t n refl),
)
worker_releases d r waiting t n = (stopped, n, entered_later d r waiting t n refl)
worker_releases d r waking t n = (stopped, n, entered_later d r waking t n refl)
worker_releases d r expired t n = (stopped, n, entered_later d r expired t n refl)
worker_releases d running timed_out t n = (
  stopped,
  suc n,
  join_leads (goes (goes start (calls inside t n)) (returns interrupted inside t (suc n)))
      (entered_later d interrupted finished t (suc n) refl),
)
worker_releases d interrupted timed_out t n = (
  stopped,
  n,
  join_leads (goes start (skips interrupted inside t n refl))
      (entered_later d interrupted finished t n refl),
)
worker_releases d stopped timed_out t n = (
  stopped,
  n,
  join_leads (goes start (skips stopped inside t n refl))
      (entered_later d stopped finished t n refl),
)
worker_releases d r calling t n = (
  stopped,
  n,
  join_leads (goes start (returns r inside t n)) (entered_later d r finished t n refl),
)
worker_releases d r finished t n = (stopped, n, entered_later d r finished t n refl)

Together-Joins :
    (deadline : ℕ) (r : RunState) (w : Worker) (o : Owner) (t n : ℕ)
    → Together r w o
    → Joins deadline (guard r w o t n) t
unfolding Together
Together-Joins d r w inside t n p = worker_releases d r w t n
Together-Joins d r w closing t n p =
    (stopped, n, join_leads (goes start (stops r w t n)) (unlocked_later d w t n))
Together-Joins d r w unlocked t n p =
    subst (λ x. Joins d (guard x w unlocked t n) t) (sym p) (stopped, n, unlocked_later d w t n)
Together-Joins d r w joining t n (p, q) =
    subst (λ x. Joins d (guard x w joining t n) t) (sym p) (stopped, n, joins_later d w t n q)
Together-Joins d r w joined t n p =
    subst (λ x. Joins d (guard r x joined t n) t) (sym p) (r, n, start)

-- From every state that a guard reaches, steps of its two threads alone, with no time and with no wake-up
-- but those of a notification or of the end of the time, lead to the end of the destructor.
pub destructor_returns :
    {begin deadline : ℕ} (r : RunState) (w : Worker) (o : Owner) (t n : ℕ)
    → Reaches begin deadline (guard r w o t n)
    → Joins deadline (guard r w o t n) t
unfolding IsSound
destructor_returns r w o t n p = let s = Reaches-IsSound p in Together-Joins _ r w o t n s.together

module _ (deadline t n : ℕ) (h : deadline ≤ t) where
  waiting_calls :
      Leads deadline (guard running waiting inside t n) (guard interrupted calling inside t (suc n))
  unfolding owner_holds
  waiting_calls =
      goes (goes (goes start (expires running inside t n h)) (relocks_late running inside t n refl))
        (calls inside t n)

  testing_calls :
      Leads deadline (guard running testing inside t n) (guard interrupted calling inside t (suc n))
  testing_calls = join_leads (goes start (waits inside t n)) waiting_calls

  -- A worker whose time is over calls the callback.
  late_calls :
      (w : Worker)
      → is_early w ≡ true
      → Leads deadline (guard running w inside t n) (guard interrupted calling inside t (suc n))
  unfolding is_early owner_holds
  late_calls starting e = join_leads (goes start (locks running inside t n refl)) testing_calls
  late_calls testing e = testing_calls
  late_calls waiting e = waiting_calls
  late_calls waking e = join_leads (goes start (relocks running inside t n refl)) testing_calls
  late_calls expired e = goes (goes start (relocks_late running inside t n refl)) (calls inside t n)
  late_calls timed_out e = goes start (calls inside t n)
  late_calls calling e = cc
  late_calls finished e = cc

-- From every state that a guard reaches in which it runs, the destructor was not entered and the deadline
-- is over, steps of its threads alone call the callback, for the first time.
pub guard_calls :
    {begin deadline : ℕ} (w : Worker) (t n : ℕ)
    → Reaches begin deadline (guard running w inside t n)
    → deadline ≤ t
    → (n ≡ 0) × Leads deadline (guard running w inside t n) (guard interrupted calling inside t 1)
unfolding IsSound
guard_calls {deadline = d} w t n p h =
    let s = Reaches-IsSound p in
    let e = s.active refl in
    let z = s.none_before e in
    (
      z,
      subst (λ m. Leads d (guard running w inside t n) (guard interrupted calling inside t (suc m)))
          z (late_calls d t n h w e),
    )
