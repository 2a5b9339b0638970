-- ===== src/Signals/Meanwhile.antt =====
-- What happens between `start` and `stop` of src/app/signal_handler/SignalHandler.cpp: signals arrive,
-- and the sigwait thread takes one.
use mavlink_hub.Base.{ℕ, ◌≡◌, true, ◌≢◌}
use mavlink_hub.Signals.{SignalHandler, sigaddset, sigdelset, waiting, ended}

module _ (wake_signal : ℕ) where
  -- A signal that is blocked arrives and is pending; the thread of `start` takes a termination signal
  -- and requests the shutdown, or takes a wake signal that was sent from outside.
  pub data Event : SignalHandler → SignalHandler → Type 0 where
    arrives :
        (d : SignalHandler) (signal : ℕ)
        → d.mask signal ≡ true
        → Event d (record d { pending = sigaddset signal d.pending })
    received :
        (d : SignalHandler) (signal : ℕ)
        → d.sigwait_thread ≡ waiting
        → d.await_set signal ≡ true
        → d.pending signal ≡ true
        → signal ≢ wake_signal
        → Event d (record d {
          sigwait_thread = ended;
          pending = sigdelset signal d.pending;
          shutdown_requested = true;
        })
    woken :
        (d : SignalHandler)
        → d.sigwait_thread ≡ waiting
        → d.pending wake_signal ≡ true
        → Event d (record d { sigwait_thread = ended; pending = sigdelset wake_signal d.pending })

  pub data Meanwhile (d : SignalHandler) : SignalHandler → Type 0 where
    nothing_yet : Meanwhile d d
    and_then : {e f : SignalHandler} → Meanwhile d e → Event e f → Meanwhile d f
