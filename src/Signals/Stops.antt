-- ===== src/Signals/Stops.antt =====
-- What `stop` of src/app/signal_handler/SignalHandler.cpp ends in, after a start.
use mavlink_hub.Base.{
  ℕ, same, ◌≡◌, refl, sym, ap, subst, ◌∙◌, Bool, true, false, not, ◌&&◌, ◌||◌, Bool-cases, some,
  List, [], ◌∷◌, arith, inl, inr, ◌⊎◌,
}
use mavlink_hub.Registry.Laws.{same_refl}
use mavlink_hub.Signals.{
  waiting, not_joinable, Sigset, sigdelset, SignalHandler, returns, drain, build_await_set,
  create_thread, start, restore, stop, delivers, Stopped, restored, killed, blocks, Received,
  own_wake, shared, CanReceive, receive, wake_and_join, ended,
}
use mavlink_hub.Signals.Meanwhile.{
  Event, arrives, received, woken, Meanwhile, nothing_yet, and_then,
}
use mavlink_hub.Signals.Laws.{elem, Distinct, build_await_set-elem}

-- Every signal that was pending and is in the list is taken, and no other.
drain-elem :
    (pending : Sigset) (signals : List ℕ) (now : Sigset)
    → Distinct signals
    → ((n : ℕ) → elem n signals ≡ true → now n ≡ pending n)
    → (left : Sigset) × ((drain pending signals now ≡ some left)
        × ((n : ℕ) → left n ≡ (not (elem n signals) && now n)))
unfolding drain elem
drain-elem pending [] now u agree = (now, (refl, λ n. refl))
drain-elem pending (x ∷ xs) now u agree = elim (Bool-cases (pending x)) [
  | inl there ↦
      let rest =
        drain-elem pending xs (sigdelset x now) u.1 (λ n h. ground (arith, agree n, u.0)) in
      (rest.0, (ground (arith, there, agree x, rest.1.0), λ n. ground (arith, rest.1.1 n)))
  | inr free ↦
      let rest = drain-elem pending xs now u.1 (λ n h. ground (arith, agree n)) in
      (rest.0, (ground (arith, free, rest.1.0), λ n. ground (arith, rest.1.1 n, agree x, free)))
]

-- Signals that are not pending are not delivered.
delivers-none :
    (signals : List ℕ) (pending mask : Sigset)
    → ((n : ℕ) → elem n signals ≡ true → pending n ≡ false)
    → delivers signals pending mask ≡ false
unfolding delivers elem
delivers-none [] pending mask h = refl
delivers-none (x ∷ xs) pending mask h =
    ground (arith, h x, same_refl x, delivers-none xs pending mask (λ n e. ground (arith, e, h n)))

-- What a call of `stop` ends in, by the mask before the start and what was pending before the call.
abbrev pub StopsAs : ℕ → SignalHandler → SignalHandler → Stopped → Type 0
StopsAs wake_signal d v blocks = ⊥
StopsAs wake_signal d v killed = (v.pending wake_signal ≡ true) × (d.mask wake_signal ≡ false)
StopsAs wake_signal d v (restored after) =
    (after.mask ≡ d.mask)
    × (after.started ≡ false)
    × (after.sigwait_thread ≡ not_joinable)
    × (after.pending wake_signal && not (after.mask wake_signal) ≡ false)
    × ((n : ℕ) → elem n d.termination_signals ≡ true → after.pending n ≡ false)
    × ((n : ℕ)
        → elem n d.termination_signals || same wake_signal n ≡ false
        → after.pending n ≡ v.pending n)

module _ (wake_signal : ℕ) where
  -- What no event changes.
  record SameHandler (u v : SignalHandler) : Type 0 where
    signals : v.termination_signals ≡ u.termination_signals
    original : v.original_mask ≡ u.original_mask
    running : v.started ≡ u.started
    awaited : v.await_set ≡ u.await_set

  Event-SameHandler : (u v : SignalHandler) → Event wake_signal u v → SameHandler u v
  Event-SameHandler u v (arrives _ signal m) = record {
    signals = refl;
    original = refl;
    running = refl;
    awaited = refl;
  }
  Event-SameHandler u v (received _ signal w a p n) = record {
    signals = refl;
    original = refl;
    running = refl;
    awaited = refl;
  }
  Event-SameHandler u v (woken _ w p) = record {
    signals = refl;
    original = refl;
    running = refl;
    awaited = refl;
  }

  Meanwhile-SameHandler : (u v : SignalHandler) → Meanwhile wake_signal u v → SameHandler u v
  Meanwhile-SameHandler u v nothing_yet = record {
    signals = refl;
    original = refl;
    running = refl;
    awaited = refl;
  }
  Meanwhile-SameHandler u v (and_then {e = e} before event) =
      let a = Meanwhile-SameHandler u e before in
      let b = Event-SameHandler e v event in
      record {
        signals = b.signals ∙ a.signals;
        original = b.original ∙ a.original;
        running = b.running ∙ a.running;
        awaited = b.awaited ∙ a.awaited;
      }

  -- What a start that returned has left for `stop`.
  start-SameHandler :
      (rc : ℕ) (thread_created : Bool) (d u : SignalHandler)
      → d.started ≡ false
      → start wake_signal rc thread_created d ≡ returns u
      → (u.termination_signals ≡ d.termination_signals)
        × (u.original_mask ≡ d.mask)
        × (u.started ≡ true)
        × (u.await_set ≡ build_await_set wake_signal d.termination_signals)
        × (u.sigwait_thread ≡ waiting)
  unfolding start create_thread
  start-SameHandler rc thread_created d u h e = ground (arith, h, e)

  -- A thread that `start` has created stays joinable.
  Meanwhile-joinable :
      (u v : SignalHandler)
      → Meanwhile wake_signal u v
      → u.sigwait_thread ≡ waiting
      → (v.sigwait_thread ≡ waiting) ⊎ (v.sigwait_thread ≡ ended)
  Meanwhile-joinable u v nothing_yet w = inl w
  Meanwhile-joinable u v (and_then before (arrives e signal m)) w = Meanwhile-joinable u e before w
  Meanwhile-joinable u v (and_then before (received e signal w' a p n)) w = inr refl
  Meanwhile-joinable u v (and_then before (woken e w' p)) w = inr refl

  -- What the join leaves.
  record Joined (u v : SignalHandler) : Type 0 where
    signals : v.termination_signals ≡ u.termination_signals
    original : v.original_mask ≡ u.original_mask
    thread : v.sigwait_thread ≡ not_joinable
    fewer : (n : ℕ) → v.pending n ≡ true → u.pending n ≡ true
    others : (n : ℕ) → u.await_set n ≡ false → v.pending n ≡ u.pending n

  wake_and_join-Joined :
      (r : Received) (u : SignalHandler)
      → CanReceive u r
      → (u.sigwait_thread ≡ waiting) ⊎ (u.sigwait_thread ≡ ended)
      → Joined u (wake_and_join wake_signal r u)
  unfolding wake_and_join receive
  wake_and_join-Joined own_wake u c w = record {
    signals = ground (arith, w);
    original = ground (arith, w);
    thread = ground (arith, w);
    fewer = λ n h. ground (arith, w, h);
    others = λ n h. ground (arith, w, h);
  }
  wake_and_join-Joined (shared signal) u c w = record {
    signals = ground (arith, w);
    original = ground (arith, w);
    thread = ground (arith, w);
    fewer = λ n h. ground (arith, w, h);
    others = λ n h. ground (arith, w, h, c);
  }

  stop-drained :
      (r : Received) (v : SignalHandler) (left : Sigset)
      → v.started ≡ true
      → let joined = wake_and_join wake_signal r v in
        drain joined.pending joined.termination_signals joined.pending ≡ some left
        → restore wake_signal (wake_and_join wake_signal r v) (some left) ≡ stop wake_signal r v
  unfolding stop
  stop-drained r v left started e =
      ap (restore wake_signal (wake_and_join wake_signal r v)) (sym e) ∙ ground (arith, started)

  restore-StopsAs :
      (d v joined : SignalHandler) (left : Sigset)
      → Joined v joined
      → joined.termination_signals ≡ d.termination_signals
      → joined.original_mask ≡ d.mask
      → ((n : ℕ) → v.await_set n ≡ (elem n d.termination_signals || same wake_signal n))
      → ((n : ℕ) → left n ≡ (not (elem n d.termination_signals) && joined.pending n))
      → StopsAs wake_signal d v (restore wake_signal joined (some left))
  unfolding restore delivers
  restore-StopsAs d v joined left j t o a l =
      elim (Bool-cases (left wake_signal && not (d.mask wake_signal))) [
        | inl through ↦
            subst (StopsAs wake_signal d v) (dies through)
              (ground (arith, through, l wake_signal, j.fewer wake_signal), ground (arith, through))
        | inr kept ↦ subst (StopsAs wake_signal d v) (goes_back kept) (
          o,
          refl,
          j.thread,
          ground (arith, kept, ap (λ mask. mask wake_signal) o),
          λ n e. ground (arith, e, l n),
          λ n e. ground (arith, e, l n, a n, j.others n),
        )
      ]
    where
      same_mask : joined.original_mask wake_signal ≡ d.mask wake_signal
      same_mask = ap (λ mask. mask wake_signal) o

      quiet : delivers joined.termination_signals left joined.original_mask ≡ false
      quiet =
          subst (λ signals. delivers signals left joined.original_mask ≡ false) (sym t)
            (delivers-none d.termination_signals left joined.original_mask
              (λ n e. ground (arith, e, l n)))

      dies :
          left wake_signal && not (d.mask wake_signal) ≡ true
          → killed ≡ restore wake_signal joined (some left)
      dies h = ground (arith, h, same_mask)

      goes_back :
          left wake_signal && not (d.mask wake_signal) ≡ false
          → restored
              (record joined { pending = left; mask = joined.original_mask; started = false })
            ≡ restore wake_signal joined (some left)
      goes_back h = ground (arith, h, same_mask, quiet)

  -- After a start that returned, whatever signals have arrived and been taken meanwhile, and whatever
  -- `sigwait` gives a thread that waits still: if no termination signal is listed twice, `stop` does
  -- not block. It returns, with the thread joined, the mask of before the start, no termination signal
  -- pending, every other signal but the wake signal pending as it was, and no wake signal pending that
  -- the mask lets through; or a wake signal from outside that is pending, and was not blocked before
  -- the start, kills the process.
  pub stop-StopsAs :
      (rc : ℕ) (thread_created : Bool) (d u v : SignalHandler) (r : Received)
      → d.started ≡ false
      → Distinct d.termination_signals
      → start wake_signal rc thread_created d ≡ returns u
      → Meanwhile wake_signal u v
      → CanReceive v r
      → StopsAs wake_signal d v (stop wake_signal r v)
  stop-StopsAs rc thread_created d u v r h distinct e meanwhile c =
      let (signals, original, running, awaited, waits) =
        start-SameHandler rc thread_created d u h e in
      let kept = Meanwhile-SameHandler u v meanwhile in
      let joined = wake_and_join wake_signal r v in
      let j = wake_and_join-Joined r v c (Meanwhile-joinable u v meanwhile waits) in
      let listed = j.signals ∙ kept.signals ∙ signals in
      let drained =
        drain-elem joined.pending d.termination_signals joined.pending distinct (λ n k. refl) in
      subst (StopsAs wake_signal d v)
        (stop-drained r v drained.0 (kept.running ∙ running)
          (ap (λ list. drain joined.pending list joined.pending) listed ∙ drained.1.0))
        (restore-StopsAs d v joined drained.0 j listed (j.original ∙ kept.original ∙ original)
          (λ n.
            ap (λ set. set n) (kept.awaited ∙ awaited)
            ∙ build_await_set-elem wake_signal d.termination_signals n)
          drained.1.1)
