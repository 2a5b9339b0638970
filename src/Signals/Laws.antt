-- ===== src/Signals/Laws.antt =====
-- What `start` of src/app/signal_handler/SignalHandler.cpp guarantee.
use mavlink_hub.Base.{
  ℕ, same, ◌≡◌, refl, subst, Bool, true, false, ◌&&◌, ◌||◌, Bool-cases, List, [], ◌∷◌, arith, inl,
  inr,
}
use mavlink_hub.Signals.{
  waiting, Sigset, sigaddset, sigemptyset, SignalHandler, Ended, returns, throws, add_signals,
  build_await_set, create_thread, start,
}

unfoldable pub elem : ℕ → List ℕ → Bool
elem n [] = false
elem n (x ∷ xs) = same x n || elem n xs

abbrev pub Distinct : List ℕ → Type 0
Distinct [] = Unit {0}
Distinct (x ∷ xs) = (elem x xs ≡ false) × Distinct xs

add_signals-elem :
    (signals : List ℕ) (set : Sigset) (n : ℕ)
    → add_signals signals set n ≡ (elem n signals || set n)
unfolding add_signals elem
add_signals-elem [] set n = refl
add_signals-elem (x ∷ xs) set n = ground (arith, add_signals-elem xs (sigaddset x set) n)

-- What a call of `start` that is not started leaves.
abbrev pub Guaranteed : ℕ → ℕ → Bool → SignalHandler → Ended → Type 0
Guaranteed wake_signal rc thread_created d (throws after) =
    (same rc 0 && thread_created ≡ false)
    × (after.mask ≡ d.mask)
    × (after.started ≡ false)
    × (after.sigwait_thread ≡ d.sigwait_thread)
Guaranteed wake_signal rc thread_created d (returns after) =
    (same rc 0 && thread_created ≡ true)
    × (after.started ≡ true)
    × (after.sigwait_thread ≡ waiting)
    × ((n : ℕ) → after.mask n ≡ ((elem n d.termination_signals || same wake_signal n) || d.mask n))

module _ (wake_signal : ℕ) where
  pub build_await_set-elem :
      (signals : List ℕ) (n : ℕ)
      → build_await_set wake_signal signals n ≡ (elem n signals || same wake_signal n)
  unfolding build_await_set
  build_await_set-elem signals n = ground (arith, add_signals-elem signals sigemptyset n)

  abbrev blocked : SignalHandler → SignalHandler
  blocked d =
      let set = build_await_set wake_signal d.termination_signals in
      record d { await_set = set; original_mask = d.mask; mask = λ n. set n || d.mask n }

  create_thread-Guaranteed :
      (rc : ℕ) (thread_created : Bool) (d : SignalHandler)
      → same rc 0 ≡ true
      → d.started ≡ false
      → Guaranteed wake_signal rc thread_created d
          (create_thread wake_signal thread_created (blocked d))
  unfolding create_thread
  create_thread-Guaranteed rc true d ok h =
      (ground arith, refl, refl, λ n. ground (arith, build_await_set-elem d.termination_signals n))
  create_thread-Guaranteed rc false d ok h = (ground arith, refl, h, refl)

  -- A start of a handler that is not started returns exactly if the signals can be blocked and the
  -- thread can be created: then it is started, its thread waits, and of the signals the termination
  -- signals, the wake signal and those that were blocked before are blocked, no other. Otherwise it
  -- throws, and leaves the mask, the flag and the thread as they were.
  pub start-Guaranteed :
      (rc : ℕ) (thread_created : Bool) (d : SignalHandler)
      → d.started ≡ false
      → Guaranteed wake_signal rc thread_created d (start wake_signal rc thread_created d)
  unfolding start create_thread
  start-Guaranteed rc thread_created d h = elim (Bool-cases (same rc 0)) [
    | inl ok ↦
        subst (Guaranteed wake_signal rc thread_created d) (created ok)
          (create_thread-Guaranteed rc thread_created d ok h)
    | inr failed ↦
        subst (Guaranteed wake_signal rc thread_created d) (left failed)
          (ground (arith, failed), refl, h, refl)
  ]
    where
      created :
          same rc 0 ≡ true
          → create_thread wake_signal thread_created (blocked d)
            ≡ start wake_signal rc thread_created d
      created ok = ground (arith, ok, h)

      left :
          same rc 0 ≡ false
          → throws (record d { await_set = build_await_set wake_signal d.termination_signals })
            ≡ start wake_signal rc thread_created d
      left failed = ground (arith, failed, h)
