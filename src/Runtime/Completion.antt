-- ===== src/Runtime/Completion.antt =====
-- A requested shutdown completes.
use mavlink_hub.Base.{
  ◌≡◌, refl, ℕ, zero, suc, ◌+◌, ◌≤◌, ◌<◌, true, false, Option-cases, none, some, List, [], ◌∷◌,
  arith, ◌⊎◌, inl, inr, subst,
}
use mavlink_hub.Base.Length.{length}
use mavlink_hub.Runtime.State.{Threads, Process, alive, terminated, returned, work_absent}
use mavlink_hub.Runtime.Actions.{
  Action, main_moves, ui_moves, sigwait_moves, sigwait_interrupts, sigwait_wakes, worker_moves,
  is_internal, step, Reach, later, Trace, done, goes_on, AllInternal, after, Survives,
  Trace-Survives,
}
use mavlink_hub.Runtime.Termination.{
  steps_left, IsLess, step-IsLess, Trace-length, steps_left-bounded,
}
use mavlink_hub.Runtime.Progress.{AtRest}
use mavlink_hub.Runtime.Safe.{is_ui_created, Sound, step-Sound}
use mavlink_hub.Runtime.Shutdown.{in_wait, waiting-Sound, rested-Ends, Ends-Returns}

AtRest-of :
    (t : Threads)
    → step main_moves t ≡ none
    → step ui_moves t ≡ none
    → step sigwait_moves t ≡ none
    → step sigwait_interrupts t ≡ none
    → step sigwait_wakes t ≡ none
    → step worker_moves t ≡ none
    → AtRest t
AtRest-of t m u s i w k main_moves e = m
AtRest-of t m u s i w k ui_moves e = u
AtRest-of t m u s i w k sigwait_moves e = s
AtRest-of t m u s i w k sigwait_interrupts e = i
AtRest-of t m u s i w k sigwait_wakes e = w
AtRest-of t m u s i w k worker_moves e = k
AtRest-of t m u s i w k a e = ground (arith, e)

abbrev CanMove : Threads → Type 0
CanMove t = (a : Action) × (p : Process) × (is_internal a ≡ true) × (step a t ≡ some p)

-- Either some thread of the hub can move, or none can.
moves-cases : (t : Threads) → CanMove t ⊎ AtRest t
moves-cases t = elim (Option-cases (step main_moves t)) [
  | inr (p, e) ↦ inl (main_moves, p, refl, e)
  | inl m ↦ elim (Option-cases (step ui_moves t)) [
    | inr (p, e) ↦ inl (ui_moves, p, refl, e)
    | inl u ↦ elim (Option-cases (step sigwait_moves t)) [
      | inr (p, e) ↦ inl (sigwait_moves, p, refl, e)
      | inl s ↦ elim (Option-cases (step sigwait_interrupts t)) [
        | inr (p, e) ↦ inl (sigwait_interrupts, p, refl, e)
        | inl i ↦ elim (Option-cases (step sigwait_wakes t)) [
          | inr (p, e) ↦ inl (sigwait_wakes, p, refl, e)
          | inl w ↦ elim (Option-cases (step worker_moves t)) [
            | inr (p, e) ↦ inl (worker_moves, p, refl, e)
            | inl k ↦ inr (AtRest-of t m u s i w k)
          ]
        ]
      ]
    ]
  ]
]

-- The threads of the hub can go on until `run` has returned.
abbrev pub Completes : Threads → Type 0
Completes t =
    (more : List Action) × (end : Threads) × Trace more t (alive end)
    × AllInternal more
    × (end.main ≡ returned)

goes_on-Completes :
    (t u : Threads) (a : Action)
    → is_internal a ≡ true
    → step a t ≡ some (alive u)
    → Completes u
    → Completes t
goes_on-Completes t u a i e (more, end, run, all, r) = (a ∷ more, end, goes_on e run, (i, all), r)

moved-Completes :
    (t : Threads) (p : Process) (a : Action)
    → is_internal a ≡ true
    → step a t ≡ some p
    → ((u : Threads) → steps_left u < steps_left t → Sound false u → Completes u)
    → Survives (Sound false) p
    → IsLess (steps_left t) p
    → Completes t
moved-Completes t terminated a i e f h l = elim h [ ]
moved-Completes t (alive u) a i e f h l = goes_on-Completes t u a i e (f u l h)

Sound-Completes : (n : ℕ) (t : Threads) → steps_left t < n → Sound false t → Completes t
Sound-Completes zero t b s = absurd (omega (arith, b))
Sound-Completes (suc n) t b s = elim (moves-cases t) [
  | inr rest ↦ ([], t, done, tt, Ends-Returns (alive t) (rested-Ends false (alive t) s rest))
  | inl (a, p, i, e) ↦
      moved-Completes t p a i e (λ u l h. Sound-Completes n u (omega (arith, b, l)) h)
        (after (Survives (Sound false)) (step a t) p e (step-Sound false a t i s))
        (after (IsLess (steps_left t)) (step a t) p e (step-IsLess a t i s.0))
]

Trace-Reach :
    (t u : Threads) (actions : List Action) → Reach t → Trace actions t (alive u) → Reach u
Trace-Reach t u [] r done = r
Trace-Reach t u (a ∷ actions) r (goes_on {u = v} e run) = Trace-Reach v u actions (later r a e) run

-- When the shutdown is requested while the main thread waits for it, the event loop has been entered
-- (or has ended already), no command is under way and no SIGUSR1 from outside is pending, then the
-- shutdown completes: whatever the threads of the hub left alone have done since, in whatever order,
-- they can go on until `run` has returned, and they have then made at most 29 steps in all.
pub shutdown_completes :
    (t u : Threads) (actions : List Action)
    → Reach t
    → t.requested ≡ true
    → in_wait t.main ≡ true
    → is_ui_created t.ui ≡ false
    → t.usr1_pending ≡ false
    → t.worker ≡ work_absent
    → Trace actions t (alive u)
    → AllInternal actions
    → (more : List Action) × (end : Threads) × Trace more u (alive end)
      × AllInternal more
      × (end.main ≡ returned)
      × (length actions + length more ≤ 29)
shutdown_completes t u actions r q w c n k run all =
    let started = subst (λ missed. Sound missed t) c (waiting-Sound t r q w n k) in
    let sound =
      Trace-Survives (Sound false) is_internal (step-Sound false) t actions (alive u) started run
        all in
    let (more, end, run', all', e) = Sound-Completes (suc (steps_left u)) u (omega arith) sound in
    let before = Trace-length t actions (alive u) run r all in
    let then = Trace-length u more (alive end) run' (Trace-Reach t u actions r run) all' in
    (more, end, run', all', e, omega (arith, before, then, steps_left-bounded t))
