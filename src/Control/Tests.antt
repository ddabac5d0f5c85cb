-- ===== src/Control/Tests.antt =====
-- Runs of the control model.
use javex.Base.{
  ℕ, ◌+◌, ◌<◌, ◌≤◌, ◌≡◌, ◌↔◌, ◌⊎◌, refl, Bool, false, List, [], ◌∷◌, arith, message, ok, err,
}
use javex.Control.{
  Control, Flags, store, new, cancel, check, from_millis, checked_add, instant_limit,
}
use javex.Control.Laws.{
  Event, makes, cancels, step, run, check_iff, check-cancel, new_iff, check-new,
}

abbrev blank : Flags
blank = record { cell = λ p. false; next = 0 }

abbrev one : Flags
one = record { cell = λ p. false; next = 1 }

-- Five milliseconds from time 7.
abbrev control : Control
control = record { deadline = 5_000_007; cancelled = 0 }

abbrev other : Control
other = record { deadline = 0; cancelled = 1 }

abbrev events : List Event
events = makes 1 3 ∷ cancels other ∷ makes 0 3 ∷ []

cancelled_late :
    check control (run (cancel control one) events) 9_000_000 ≡ err (message "cancelled")
unfolding run step new cancel check store checked_add
cancelled_late = refl

timed_out : check control one 5_000_007 ≡ err (message "execution timed out")
unfolding check
timed_out = refl

check_iff_example : (check control one 4 ≡ ok tt) ↔ ((◌≡◌ {A = Bool} false false) × (4 < 5_000_007))
check_iff_example = check_iff control one 4

check-cancel_example : check control (run (cancel control one) events) 8 ≡ err (message "cancelled")
check-cancel_example = check-cancel control one events 8 (omega arith)

new_iff_example :
    (new 0 7 blank ≡ err (message "invalid timeout"))
    ↔ ((◌≡◌ {A = ℕ} 0 0) ⊎ (instant_limit ≤ 7 + from_millis 0))
new_iff_example = new_iff 0 7 blank

-- The flags after the first control is made.
abbrev one' : Flags
unfolding store
one' = record (store blank 0 false) { next = 1 }

check-new_example : (check control (run one' events) 100 ≡ ok tt) ↔ (100 < 7 + from_millis 5)
unfolding new checked_add
check-new_example = check-new 5 7 100 blank one' control events refl (omega arith, tt)
