-- ===== src/Runtime/Places.antt =====
-- What the places of the threads tell of what has happened.
use mavlink_hub.Base.{Bool, true, false, ◌||◌, not}
use mavlink_hub.Runtime.State.{
  MainPc, starting_signals, starting_cli, checking, asleep, joining_ui, waking, joining_sigwait,
  draining, restoring, returned, UiPc, ui_absent, ui_created, ui_notifying, ui_finished, SigwaitPc,
  sig_absent, sig_waiting, sig_notifying, sig_finished,
}

-- The request was made, by the UI thread or by the sigwait thread.
abbrev pub ui_requested : UiPc → Bool
ui_requested ui_notifying = true
ui_requested ui_finished = true
ui_requested pc = false

abbrev pub sigwait_requested : SigwaitPc → Bool
sigwait_requested sig_notifying = true
sigwait_requested sig_finished = true
sigwait_requested pc = false

-- A notification is under way.
abbrev pub notifying : UiPc → SigwaitPc → Bool
notifying ui_notifying sig = true
notifying ui sig_notifying = true
notifying ui sig = false

abbrev pub has_started_signals : MainPc → Bool
has_started_signals starting_signals = false
has_started_signals pc = true

abbrev pub has_started_cli : MainPc → Bool
has_started_cli starting_signals = false
has_started_cli starting_cli = false
has_started_cli pc = true

-- The wait for the shutdown is over.
abbrev pub has_waited : MainPc → Bool
has_waited starting_signals = false
has_waited starting_cli = false
has_waited checking = false
has_waited asleep = false
has_waited pc = true

-- The join of the UI thread is over.
abbrev pub has_joined_ui : MainPc → Bool
has_joined_ui waking = true
has_joined_ui joining_sigwait = true
has_joined_ui draining = true
has_joined_ui restoring = true
has_joined_ui returned = true
has_joined_ui pc = false

abbrev pub has_joined_sigwait : MainPc → Bool
has_joined_sigwait draining = true
has_joined_sigwait restoring = true
has_joined_sigwait returned = true
has_joined_sigwait pc = false

-- The call of `App::Exit` is over, where it is made.
abbrev pub has_exited : MainPc → Bool
has_exited joining_ui = true
has_exited pc = has_joined_ui pc

-- The event loop has been entered.
abbrev pub has_looped : UiPc → Bool
has_looped ui_absent = false
has_looped ui_created = false
has_looped pc = true

abbrev pub is_returned : MainPc → Bool
is_returned returned = true
is_returned pc = false

abbrev pub is_joining_sigwait : MainPc → Bool
is_joining_sigwait joining_sigwait = true
is_joining_sigwait pc = false

abbrev pub is_waiting : SigwaitPc → Bool
is_waiting sig_waiting = true
is_waiting pc = false

abbrev pub is_ui_absent : UiPc → Bool
is_ui_absent ui_absent = true
is_ui_absent pc = false

abbrev pub is_sigwait_absent : SigwaitPc → Bool
is_sigwait_absent sig_absent = true
is_sigwait_absent pc = false

abbrev pub implies : Bool → Bool → Bool
implies a b = not a || b
