-- ===== src/Runtime/Actions.antt =====
-- What can happen next: a thread's step, an act of the user, or a signal from outside.
use mavlink_hub.Base.{
  Bool, true, false, ◌&&◌, ◌≡◌, refl, subst, Option, none, some, List, [], ◌∷◌, if◌then◌else◌,
}
use mavlink_hub.Runtime.State.{
  MainPc, checking, asleep, UiPc, ui_created, ui_looping, ui_leaving, Threads, Process, alive,
  terminated, booted, work_serving,
}
use mavlink_hub.Runtime.Threads.{
  main_at, ui_at, sigwait_at, sigwait_int_at, sigwait_woken_at, worker_at, is_absent, is_active,
}

pub data Action : Type 0 where
  -- the hub's own threads
  main_moves ui_moves sigwait_moves sigwait_interrupts sigwait_wakes worker_moves : Action
  -- a spurious wake-up of the wait
  spurious : Action
  -- the user leaves the interface, or starts a command in it, once the thread of the one before has
  -- ended, which the start waits for
  user_quits user_executes : Action
  -- the routine that draws the interface throws
  ui_throws : Action
  -- SIGTERM, SIGINT or SIGUSR1 is sent to the process from outside
  term_signal int_signal usr1_signal : Action

-- The hub's own threads.
abbrev pub is_internal : Action → Bool
is_internal main_moves = true
is_internal ui_moves = true
is_internal sigwait_moves = true
is_internal sigwait_interrupts = true
is_internal sigwait_wakes = true
is_internal worker_moves = true
is_internal a = false

abbrev pub is_asleep : MainPc → Bool
is_asleep asleep = true
is_asleep pc = false

abbrev pub in_routine : UiPc → Bool
in_routine ui_created = true
in_routine ui_looping = true
in_routine pc = false

unfoldable pub step : Action → Threads → Option Process
unfolding main_at ui_at sigwait_at sigwait_int_at sigwait_woken_at worker_at
step main_moves t = main_at t.main t
step ui_moves t = ui_at t.ui t
step sigwait_moves t = sigwait_at t.sigwait t
step sigwait_interrupts t = sigwait_int_at t.sigwait t
step sigwait_wakes t = sigwait_woken_at t.sigwait t
step worker_moves t = worker_at t.worker t
step spurious t = if is_asleep t.main then some (alive (record t { main = checking })) else none
step user_quits t = if is_active t.ui then some (alive (record t { ui = ui_leaving })) else none
step user_executes t =
    if is_active t.ui && is_absent t.worker
    then some (alive (record t { worker = work_serving }))
    else none
step ui_throws t = if in_routine t.ui then some terminated else none
step term_signal t =
    if t.blocked then some (alive (record t { term_pending = true })) else some terminated
step int_signal t =
    if t.blocked then some (alive (record t { int_pending = true })) else some terminated
step usr1_signal t =
    if t.blocked then some (alive (record t { usr1_pending = true })) else some terminated

-- The states that can be reached from the start of `run`, the process being alive.
pub data Reach : Threads → Type 0 where
  start : Reach booted
  later : {t u : Threads} → Reach t → (a : Action) → step a t ≡ some (alive u) → Reach u

-- The actions one after the other, up to the end of the list or of the process.
pub data Trace : List Action → Threads → Process → Type 0 where
  done : {t : Threads} → Trace [] t (alive t)
  dies : {t : Threads} {a : Action} → step a t ≡ some terminated → Trace (a ∷ []) t terminated
  goes_on :
      {t u : Threads} {a : Action} {actions : List Action} {p : Process}
      → step a t ≡ some (alive u)
      → Trace actions u p
      → Trace (a ∷ actions) t p

abbrev pub AllOf : (Action → Bool) → List Action → Type 0
AllOf allowed [] = Unit {0}
AllOf allowed (a ∷ actions) = (allowed a ≡ true) × AllOf allowed actions

-- The hub is left alone: no user, and no signal from outside.
abbrev pub AllInternal : List Action → Type 0
AllInternal = AllOf is_internal

-- What holds of the outcome of a step, if the step can happen.
abbrev pub After : (Process → Type 0) → Option Process → Type 0
After P none = Unit {0}
After P (some p) = P p

pub if-After :
    (P : Process → Type 0) (b : Bool) (x y : Option Process)
    → (b ≡ true → After P x)
    → (b ≡ false → After P y)
    → After P (if b then x else y)
if-After P true x y f g = f refl
if-After P false x y f g = g refl

pub after : (P : Process → Type 0) (o : Option Process) (p : Process) → o ≡ some p → After P o → P p
after P o p e h = subst (After P) e h

-- The process is alive, and `P` holds.
abbrev pub Survives : (Threads → Type 0) → Process → Type 0
Survives P terminated = ⊥
Survives P (alive t) = P t

-- What every step allowed preserves, and by which the process survives, a trace preserves.
pub Trace-Survives :
    (P : Threads → Type 0) (allowed : Action → Bool)
    → ((a : Action) (t : Threads) → allowed a ≡ true → P t → After (Survives P) (step a t))
    → (t : Threads) (actions : List Action) (p : Process) → P t
    → Trace actions t p
    → AllOf allowed actions
    → Survives P p
Trace-Survives P allowed kept t [] p h done all = h
Trace-Survives P allowed kept t (a ∷ []) p h (dies e) all =
    after (Survives P) (step a t) terminated e (kept a t all.0 h)
Trace-Survives P allowed kept t (a ∷ actions) p h (goes_on {u = u} e run) all =
    Trace-Survives P allowed kept u actions p
      (after (Survives P) (step a t) (alive u) e (kept a t all.0 h)) run all.1
