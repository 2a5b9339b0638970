-- ===== src/Signals.antt =====
-- src/app/signal_handler/SignalHandler.cpp as its caller sees it: `start` and `stop`, with what their
-- system calls may answer. Its threads, step by step, are in `Runtime`.
pub mod Meanwhile
pub mod Laws
pub mod Stops
use mavlink_hub.Base.{
  ℕ, ◌≡◌, same, Bool, true, false, not, ◌&&◌, ◌||◌, Option, none, some, List, [], ◌∷◌,
  if◌then◌else◌,
}

-- `sigset_t`, and `sigemptyset`, `sigaddset` and `sigdelset` on it.
abbrev pub Sigset : Type 0
Sigset = ℕ → Bool

abbrev pub sigemptyset : Sigset
sigemptyset n = false

abbrev pub sigaddset : ℕ → Sigset → Sigset
sigaddset signal set n = same signal n || set n

abbrev pub sigdelset : ℕ → Sigset → Sigset
sigdelset signal set n = not (same signal n) && set n

-- `sigwait_thread`: not joinable, in `sigwait`, or ended and not joined.
pub data SigwaitThread : Type 0 where
  not_joinable waiting ended : SigwaitThread

-- SignalHandlerImpl, and what it works on: the mask of the calling thread, the signals that are
-- pending for the process, and the flag of the shutdown controller.
pub record SignalHandler : Type 0 where
  pub termination_signals : List ℕ
  pub await_set : Sigset
  pub original_mask : Sigset
  pub started : Bool
  pub sigwait_thread : SigwaitThread
  pub mask : Sigset
  pub pending : Sigset
  pub shutdown_requested : Bool

-- A call returns, or is left by an exception.
pub data Ended : Type 0 where
  returns : SignalHandler → Ended
  throws : SignalHandler → Ended

-- The loop of `buildAwaitSet`.
unfoldable pub add_signals : List ℕ → Sigset → Sigset
add_signals [] set = set
add_signals (signal ∷ signals) set = add_signals signals (sigaddset signal set)

-- The loop of `stop` over the termination signals. `sigwait` on a signal that is not pending any
-- more blocks: `none`.
unfoldable pub drain : Sigset → List ℕ → Sigset → Option Sigset
drain pending [] now = some now
drain pending (signal ∷ signals) now =
    let taken = drain pending signals (sigdelset signal now) in
    let left = drain pending signals now in
    if pending signal then (if now signal then taken else none) else left

-- `kWakeSignal`
module _ (wake_signal : ℕ) where
  unfoldable pub build_await_set : List ℕ → Sigset
  unfolding add_signals
  build_await_set signals = sigaddset wake_signal (add_signals signals sigemptyset)

  -- The end of `start`, once the signals are blocked: the thread is created, or it cannot be.
  unfoldable pub create_thread : Bool → SignalHandler → Ended
  create_thread true d = returns (record d { sigwait_thread = waiting; started = true })
  create_thread false d = throws (record d { mask = d.original_mask })

  -- The code that `pthread_sigmask` answers, and whether the thread can be created.
  unfoldable pub start : ℕ → Bool → SignalHandler → Ended
  unfolding create_thread build_await_set
  start rc thread_created d =
      let set = build_await_set d.termination_signals in
      if d.started
      then returns d
      else if not (same rc 0)
      then throws (record d { await_set = set })
      else create_thread thread_created
          (record d { await_set = set; original_mask = d.mask; mask = λ n. set n || d.mask n })

-- A call of `stop` returns, or the process is killed in it, or it blocks for ever.
pub data Stopped : Type 0 where
  restored : SignalHandler → Stopped
  killed blocks : Stopped

-- Whether the new mask lets one of the signals that are pending through.
unfoldable pub delivers : List ℕ → Sigset → Sigset → Bool
delivers [] pending mask = false
delivers (signal ∷ signals) pending mask =
    pending signal && not (mask signal) || delivers signals pending mask

-- What `sigwait` gives a thread that still waits when `stop` wakes it: the wake signal that
-- `pthread_kill` sends it, or a signal that is pending for the process.
pub data Received : Type 0 where
  own_wake : Received
  shared : ℕ → Received

-- What `sigwait` may give.
abbrev pub CanReceive : SignalHandler → Received → Type 0
CanReceive d own_wake = Unit {0}
CanReceive d (shared signal) = (d.await_set signal ≡ true) × (d.pending signal ≡ true)

module _ (wake_signal : ℕ) where
  -- The rest of the thread's body, after `sigwait`.
  unfoldable pub receive : Received → SignalHandler → SignalHandler
  receive own_wake d = record d { sigwait_thread = ended }
  receive (shared signal) d = record d {
    sigwait_thread = ended;
    pending = sigdelset signal d.pending;
    shutdown_requested = d.shutdown_requested || not (same signal wake_signal);
  }

  -- `pthread_kill` and `join`. To a thread that has ended already the wake signal does nothing.
  unfoldable pub wake_and_join : Received → SignalHandler → SignalHandler
  unfolding receive
  wake_and_join received d = elim d.sigwait_thread [
    | not_joinable ↦ d
    | waiting ↦ record (receive received d) { sigwait_thread = not_joinable }
    | ended ↦ record d { sigwait_thread = not_joinable }
  ]

  -- The end of `stop`, after the loop. Of the signals that `start` has blocked, one that is pending
  -- and that the mask of before lets through is delivered, and ends the process: nothing in the hub
  -- handles it.
  unfoldable pub restore : SignalHandler → Option Sigset → Stopped
  restore d none = blocks
  restore d (some pending) =
      if delivers (wake_signal ∷ d.termination_signals) pending d.original_mask
      then killed
      else restored (record d { pending = pending; mask = d.original_mask; started = false })

  -- A signal that arrives during the call is not part of this.
  unfoldable pub stop : Received → SignalHandler → Stopped
  unfolding restore drain wake_and_join
  stop received d =
      let joined = wake_and_join received d in
      if not d.started
      then restored d
      else restore joined (drain joined.pending joined.termination_signals joined.pending)
