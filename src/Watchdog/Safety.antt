-- ===== src/Watchdog/Safety.antt =====
-- The callback runs once at most, not before its time, and not after the destructor.
use eos_vm.Prelude.{ℕ, ◌≤◌, ◌≡◌, refl, Bool, true, false, arith}
use mathlib.Core.Path.{subst}
use eos_vm.Watchdog.{
  RunState, running, interrupted, stopped, Worker, starting, testing, waiting, waking, expired,
  timed_out, calling, finished, Owner, inside, closing, unlocked, joining, joined, Guard, guard,
  worker_holds, owner_holds, is_running, notify, Step, ticks, locks, waits, leaves, expires,
  relocks, relocks_late, calls, skips, returns, enters, stops, notifies, joins, Reaches,
  constructed, steps, wakes,
}

-- Before the callback.
unfoldable pub is_early : Worker → Bool
is_early calling = false
is_early finished = false
is_early _ = true

-- Past the end of the time, before the callback.
unfoldable pub is_due : Worker → Bool
is_due expired = true
is_due timed_out = true
is_due _ = false

unfoldable pub is_waiting : Worker → Bool
is_waiting waiting = true
is_waiting _ = false

-- Where the threads are, together: the mutex is held once, and the owner does not join a worker that
-- sleeps.
unfoldable pub Together : RunState → Worker → Owner → Type 0
Together r w inside = Unit
Together r w closing = worker_holds w ≡ false
Together r w unlocked = r ≡ stopped
Together r w joining = (r ≡ stopped) × (is_waiting w ≡ false)
Together r w joined = w ≡ finished

pub record Sound (deadline : ℕ) (r : RunState) (w : Worker) (o : Owner) (t n : ℕ) : Type 0 where
  pub once : n ≤ 1
  pub none_before : is_early w ≡ true → n ≡ 0
  pub due : is_due w ≡ true → deadline ≤ t
  pub late : 1 ≤ n → deadline ≤ t
  pub active : r ≡ running → is_early w ≡ true
  pub together : Together r w o

unfoldable pub IsSound : ℕ → Guard → Type 0
IsSound deadline (guard r w o t n) = Sound deadline r w o t n

-- The worker moves while the owner does not hold the mutex.
moved :
    (r : RunState) (w w' : Worker) (o : Owner)
    → owner_holds o ≡ false
    → (w ≡ finished → ⊥)
    → is_waiting w' ≡ false
    → Together r w o
    → Together r w' o
unfolding Together owner_holds
moved r w w' inside h f k p = tt
moved r w w' closing h f k p = absurd (ground (arith, h))
moved r w w' unlocked h f k p = p
moved r w w' joining h f k (p, q) = (p, k)
moved r w w' joined h f k p = absurd (f p)

-- The worker gives the mutex back.
released :
    (r r' : RunState) (w w' : Worker) (o : Owner)
    → worker_holds w ≡ true
    → is_waiting w' ≡ false
    → (r ≡ stopped → r' ≡ stopped)
    → Together r w o
    → Together r' w' o
unfolding Together worker_holds
released r r' w w' inside h k s p = tt
released r r' w w' closing h k s p = absurd (ground (arith, h, p))
released r r' w w' unlocked h k s p = s p
released r r' w w' joining h k s (p, q) = (s p, k)
released r r' w w' joined h k s p = absurd (ground (arith, h, p))

-- The worker sleeps while the guard runs.
asleep : (o : Owner) → Together running testing o → Together running waiting o
unfolding Together worker_holds
asleep inside p = tt
asleep closing p = refl
asleep unlocked p = p
asleep joining (p, q) = cc
asleep joined p = cc

-- The worker goes on from its sleep.
awake :
    (r : RunState) (w : Worker) (o : Owner)
    → worker_holds w ≡ false
    → is_waiting w ≡ false
    → Together r waiting o
    → Together r w o
unfolding Together worker_holds
awake r w inside h k p = tt
awake r w closing h k p = h
awake r w unlocked h k p = p
awake r w joining h k (p, q) = (p, k)
awake r w joined h k p = cc

notify-is_early : (w : Worker) → is_early (notify w) ≡ is_early w
unfolding is_early notify
notify-is_early waiting = refl
notify-is_early starting = refl
notify-is_early testing = refl
notify-is_early waking = refl
notify-is_early expired = refl
notify-is_early timed_out = refl
notify-is_early calling = refl
notify-is_early finished = refl

notify-is_due : (w : Worker) → is_due (notify w) ≡ is_due w
unfolding is_due notify
notify-is_due waiting = refl
notify-is_due starting = refl
notify-is_due testing = refl
notify-is_due waking = refl
notify-is_due expired = refl
notify-is_due timed_out = refl
notify-is_due calling = refl
notify-is_due finished = refl

pub notify-is_waiting : (w : Worker) → is_waiting (notify w) ≡ false
unfolding is_waiting notify
notify-is_waiting waiting = refl
notify-is_waiting starting = refl
notify-is_waiting testing = refl
notify-is_waiting waking = refl
notify-is_waiting expired = refl
notify-is_waiting timed_out = refl
notify-is_waiting calling = refl
notify-is_waiting finished = refl

-- A step of the worker that calls nothing.
quiet :
    {deadline t n : ℕ} {r : RunState} {w w' : Worker} {o o' : Owner}
    → Sound deadline r w o t n
    → (is_early w' ≡ true → is_early w ≡ true)
    → (is_due w' ≡ true → deadline ≤ t)
    → {r' : RunState} → (r' ≡ running → is_early w' ≡ true)
    → Together r' w' o'
    → Sound deadline r' w' o' t n
quiet s e d a p = record {
  active = a;
  once = s.once;
  none_before = λ x. s.none_before (e x);
  due = d;
  late = s.late;
  together = p;
}

not_running : {A : Type 0} {r : RunState} → is_running r ≡ false → r ≡ running → A
unfolding is_running
not_running h e = cc (subst (λ x. is_running x ≡ false) e h)

Step-IsSound :
    (deadline : ℕ) {g h : Guard} → Step deadline g h → IsSound deadline g → IsSound deadline h
unfolding IsSound is_early is_due is_waiting worker_holds owner_holds Together
Step-IsSound d (ticks r w o t n) s = record {
  active = s.active;
  once = s.once;
  none_before = s.none_before;
  due = λ e. omega (arith, s.due e);
  late = λ e. omega (arith, s.late e);
  together = s.together;
}
Step-IsSound d (locks r o t n h) s =
    quiet s (λ e. refl) (λ e. cc) (λ e. refl)
      (moved r starting testing o h (λ e. cc) refl s.together)
Step-IsSound d (waits o t n) s = quiet s (λ e. refl) (λ e. cc) (λ e. refl) (asleep o s.together)
Step-IsSound d (leaves r o t n h) s =
    quiet s (λ e. cc) (λ e. cc) (not_running h)
      (released r r testing finished o refl refl (λ e. e) s.together)
Step-IsSound d (expires r o t n h) s =
    quiet s (λ e. refl) (λ e. h) (λ e. refl) (awake r expired o refl refl s.together)
Step-IsSound d (relocks r o t n h) s =
    quiet s (λ e. refl) (λ e. cc) (λ e. refl) (moved r waking testing o h (λ e. cc) refl s.together)
Step-IsSound d (relocks_late r o t n h) s =
    quiet s (λ e. refl) (λ e. s.due refl) (λ e. refl)
      (moved r expired timed_out o h (λ e. cc) refl s.together)
Step-IsSound d (calls o t n) s = record {
  active = λ e. cc;
  once = omega (arith, s.none_before refl);
  none_before = λ e. cc;
  due = λ e. cc;
  late = λ e. s.due refl;
  together = released running interrupted timed_out calling o refl refl (λ e. cc) s.together;
}
Step-IsSound d (skips r o t n h) s =
    quiet s (λ e. cc) (λ e. cc) (not_running h)
      (released r r timed_out finished o refl refl (λ e. e) s.together)
Step-IsSound d (returns r o t n) s =
    quiet s (λ e. cc) (λ e. cc) s.active
      (released r r calling finished o refl refl (λ e. e) s.together)
Step-IsSound d (enters r w t n h) s = quiet s (λ e. e) s.due s.active h
Step-IsSound d (stops r w t n) s = quiet s (λ e. e) s.due (λ e. cc) refl
Step-IsSound d (notifies r w t n) s =
    quiet s (λ e. cc (e, notify-is_early w)) (λ e. s.due (cc (e, notify-is_due w)))
      (λ e. cc (s.active e, notify-is_early w)) (s.together, notify-is_waiting w)
Step-IsSound d (joins r t n) s = quiet s (λ e. e) s.due s.active refl

-- In every state that a guard reaches the callback has been called once at most, and at or after the
-- deadline if it was; a worker that has called it or is at its end has not left the state running; no
-- two threads hold the mutex; once the destructor has set the state it stays
-- stopped until the join, which no sleeping worker is left for; and the worker has finished when the
-- destructor has.
pub Reaches-IsSound :
    {start deadline : ℕ} {g : Guard} → Reaches start deadline g → IsSound deadline g
unfolding IsSound is_early is_due is_waiting worker_holds Together
Reaches-IsSound constructed = record {
  active = λ e. refl;
  once = omega arith;
  none_before = λ e. refl;
  due = λ e. cc;
  late = λ e. absurd (omega (arith, e));
  together = tt;
}
Reaches-IsSound {deadline = d} (steps p q) = Step-IsSound d q (Reaches-IsSound p)
Reaches-IsSound (wakes r o t n p) =
    let s = Reaches-IsSound p in
    quiet s (λ e. refl) (λ e. cc) (λ e. refl) (awake r waking o refl refl s.together)
