-- ===== src/Runtime/Shutdown.antt =====
-- A shutdown that is requested while the hub waits for it and its event loop runs or has ended.
use mavlink_hub.Base.{◌≡◌, subst, ◌⊎◌, inl, inr, Bool-cases, Bool, true, false, List, arith}
use mavlink_hub.Runtime.State.{
  work_absent, MainPc, checking, asleep, joining_ui, returned, ui_looping, Threads, Process, alive,
  terminated,
}
use mavlink_hub.Runtime.Actions.{
  Action, is_internal, Reach, Trace, AllInternal, Survives, Trace-Survives,
}
use mavlink_hub.Runtime.Invariant.{Reach-Inv}
use mavlink_hub.Runtime.Progress.{AtRest, AtRest-is_over, is_over, is_returned}
use mavlink_hub.Runtime.Safe.{is_ui_created, Safe, Sound, step-Sound}

abbrev pub in_wait : MainPc → Bool
in_wait checking = true
in_wait asleep = true
in_wait pc = false

-- None of the threads can move, in a process that is alive.
abbrev pub Rests : Process → Type 0
Rests terminated = Unit {0}
Rests (alive t) = AtRest t

abbrev pub Returns : Process → Type 0
Returns terminated = ⊥
Returns (alive t) = t.main ≡ returned

-- The process is alive, and `run` has returned or, if `missed` allows it, the main thread joins a UI
-- thread in its event loop that was never told to end.
abbrev pub Ends : Bool → Process → Type 0
Ends missed terminated = ⊥
Ends missed (alive t) =
    (t.main ≡ returned)
    ⊎ ((missed ≡ true) × (t.main ≡ joining_ui) × (t.ui ≡ ui_looping) × (t.exit_posted ≡ false))

over-Ends : (missed : Bool) (t : Threads) → is_over t ≡ true → Safe missed t → Ends missed (alive t)
over-Ends missed t o s = elim (Bool-cases (is_returned t.main)) [
  | inl r ↦ inl (ground (arith, r))
  | inr r ↦ inr (ground (arith, r), ground (arith, r), ground (arith, r), ground (arith, r))
]

pub rested-Ends :
    (missed : Bool) (p : Process) → Survives (Sound missed) p → Rests p → Ends missed p
rested-Ends missed terminated h rest = elim h [ ]
rested-Ends missed (alive t) h rest =
    over-Ends missed t (AtRest-is_over t h.0 h.1.requested rest) h.1

pub Ends-Returns : (p : Process) → Ends false p → Returns p
Ends-Returns terminated e = e
Ends-Returns (alive t) (inl r) = r
Ends-Returns (alive t) (inr h) = cc (h.0)

pub waiting-Sound :
    (t : Threads)
    → Reach t
    → t.requested ≡ true
    → in_wait t.main ≡ true
    → t.usr1_pending ≡ false
    → t.worker ≡ work_absent
    → Sound (is_ui_created t.ui) t
waiting-Sound t r q w n k = let v = Reach-Inv t r in (v, ground arith)

-- When the shutdown is requested while the main thread waits for it, no command is under way and no
-- SIGUSR1 from outside is pending, then wherever the threads of the hub left alone can move no more,
-- the process is alive, and it has ended in one of two ways: `run` has returned, or, only if the
-- event loop had not been entered yet, the main thread waits for ever to join a UI thread that is
-- in its event loop and was never told to end.
pub waiting-Ends :
    (t : Threads) (actions : List Action) (p : Process)
    → Reach t
    → t.requested ≡ true
    → in_wait t.main ≡ true
    → t.usr1_pending ≡ false
    → t.worker ≡ work_absent
    → Trace actions t p
    → AllInternal actions
    → Rests p
    → Ends (is_ui_created t.ui) p
waiting-Ends t actions p r q w n k run all rest =
    let missed = is_ui_created t.ui in
    rested-Ends missed p
      (Trace-Survives (Sound missed) is_internal (step-Sound missed) t actions p
        (waiting-Sound t r q w n k) run all)
      rest

-- When the shutdown is requested while the main thread waits for it, the event loop has been entered
-- (or has ended already), no command is under way and no SIGUSR1 from outside is pending, then the
-- hub left alone ends well: wherever its threads can move no more, the process is alive and `run` has
-- returned.
pub waiting-Returns :
    (t : Threads) (actions : List Action) (p : Process)
    → Reach t
    → t.requested ≡ true
    → in_wait t.main ≡ true
    → is_ui_created t.ui ≡ false
    → t.usr1_pending ≡ false
    → t.worker ≡ work_absent
    → Trace actions t p
    → AllInternal actions
    → Rests p
    → Returns p
waiting-Returns t actions p r q w c n k run all rest =
    Ends-Returns p
      (subst (λ missed. Ends missed p) c (waiting-Ends t actions p r q w n k run all rest))
