-- ===== src/Control/Laws.antt =====
-- When a control lets a call go on (native/javex_nif/src/sandbox.rs, `Control`).
use javex.Base.{
  ℕ, ◌+◌, ◌<◌, ◌≤◌, ◌≡◌, ◌≢◌, ◌↔◌, ◌⊎◌, true, false, List, [], ◌∷◌, arith, message, ok, err,
}
use javex.Control.{Control, Flags, new, cancel, check, from_millis, checked_add, instant_limit}

-- Other controls that are made, and cancellations, in any order.
pub data Event : Type 0 where
  makes : ℕ → ℕ → Event
  cancels : Control → Event

unfoldable pub step : Flags → Event → Flags
step flags (makes timeout now) = elim (new timeout now flags) [ ok r ↦ r.1 | err _ ↦ flags ]
step flags (cancels c) = cancel c flags

unfoldable pub run : Flags → List Event → Flags
run flags [] = flags
run flags (e ∷ events) = run (step flags e) events

-- A call may go on exactly while nobody cancelled it and its deadline lies ahead.
pub check_iff :
    (c : Control) (flags : Flags) (now : ℕ)
    → (check c flags now ≡ ok tt) ↔ ((flags.cell c.cancelled ≡ false) × (now < c.deadline))
unfolding check
check_iff c flags now = ground arith

-- Flags are given out in order, and none is ever taken back.
step-next : (flags : Flags) (e : Event) → flags.next ≤ (step flags e).next
unfolding step new cancel
step-next flags (makes timeout now) = ground arith
step-next flags (cancels c) = ground arith

step-true :
    (flags : Flags) (e : Event) (p : ℕ)
    → p < flags.next
    → flags.cell p ≡ true
    → (step flags e).cell p ≡ true
unfolding step new cancel
step-true flags (makes timeout now) p h t = ground arith
step-true flags (cancels c) p h t = ground arith

run-true :
    (flags : Flags) (events : List Event) (p : ℕ)
    → p < flags.next
    → flags.cell p ≡ true
    → (run flags events).cell p ≡ true
unfolding run
run-true flags [] p h t = t
run-true flags (e ∷ events) p h t =
    run-true (step flags e) events p (omega (arith, step-next flags e)) (step-true flags e p h t)

-- After a cancellation through any clone of a control whose flag was given out, every check fails
-- as cancelled, at any time, whatever else is made or cancelled in between.
pub check-cancel :
    (c : Control) (flags : Flags) (events : List Event) (now : ℕ)
    → c.cancelled < flags.next
    → check c (run (cancel c flags) events) now ≡ err (message "cancelled")
unfolding check cancel
check-cancel c flags events now h =
    let raised : (run (cancel c flags) events).cell c.cancelled ≡ true =
      run-true (cancel c flags) events c.cancelled h (ground arith) in
    rw raised

-- The events that leave the flag of a control alone.
abbrev pub Spares : Control → List Event → Type 0
Spares c [] = Unit {0}
Spares c (makes timeout now ∷ events) = Spares c events
Spares c (cancels c' ∷ events) = (c.cancelled ≢ c'.cancelled) × Spares c events

step-false-makes :
    (flags : Flags) (timeout now p : ℕ)
    → p < flags.next
    → flags.cell p ≡ false
    → (step flags (makes timeout now)).cell p ≡ false
unfolding step new
step-false-makes flags timeout now p h f = ground arith

step-false-cancels :
    (flags : Flags) (c c' : Control)
    → c.cancelled ≢ c'.cancelled
    → flags.cell c.cancelled ≡ false
    → (step flags (cancels c')).cell c.cancelled ≡ false
unfolding step cancel
step-false-cancels flags c c' ne f = ground arith

run-false :
    (c : Control) (flags : Flags) (events : List Event)
    → c.cancelled < flags.next
    → Spares c events
    → flags.cell c.cancelled ≡ false
    → (run flags events).cell c.cancelled ≡ false
unfolding run
run-false c flags [] h s f = f
run-false c flags (makes timeout now ∷ events) h s f =
    run-false c (step flags (makes timeout now)) events
      (omega (arith, step-next flags (makes timeout now))) s
      (step-false-makes flags timeout now c.cancelled h f)
run-false c flags (cancels c' ∷ events) h s f =
    run-false c (step flags (cancels c')) events (omega (arith, step-next flags (cancels c'))) s.1
      (step-false-cancels flags c c' s.0 f)

-- A control is refused exactly for a timeout of zero or one beyond the range of the clock.
pub new_iff :
    (timeout now : ℕ) (flags : Flags)
    → (new timeout now flags ≡ err (message "invalid timeout"))
      ↔ ((timeout ≡ 0) ⊎ (instant_limit ≤ now + from_millis timeout))
unfolding new checked_add
new_iff timeout now flags = ground arith

new-made :
    (timeout now : ℕ) (flags flags' : Flags) (c : Control)
    → new timeout now flags ≡ ok (c, flags')
    → (c.deadline ≡ now + from_millis timeout)
      × (c.cancelled < flags'.next)
      × (flags'.cell c.cancelled ≡ false)
unfolding new checked_add
new-made timeout now flags flags' c made = ground arith

-- Until somebody cancels it, a new control lets a call go on for exactly its timeout.
pub check-new :
    (timeout now later : ℕ) (flags flags' : Flags) (c : Control) (events : List Event)
    → new timeout now flags ≡ ok (c, flags')
    → Spares c events
    → (check c (run flags' events) later ≡ ok tt) ↔ (later < now + from_millis timeout)
check-new timeout now later flags flags' c events made s =
    let (deadline, place, lowered) = new-made timeout now flags flags' c made in
    let still : (run flags' events).cell c.cancelled ≡ false =
      run-false c flags' events place s lowered in
    let iff = check_iff c (run flags' events) later in
    (λ h. rw (← deadline) ((iff.0 h).1), λ h. iff.1 (still, rw deadline h))
