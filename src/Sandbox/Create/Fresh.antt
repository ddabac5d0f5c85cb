-- ===== src/Sandbox/Create/Fresh.antt =====
-- What `Sandbox::new` of native/javex_nif/src/sandbox.rs asks for, and what a fresh call looks like.
use javex.Base.{
  ℕ, suc, ◌<◌, ◌≡◌, ◌↔◌, refl, sym, ap, ◌∙◌, true, false, List, Anyhow, message, Result, ok, is_err,
  ensure, arith, ok-injective, >>=-eq-ok, subst,
}
use javex.Output.{Output, Heap, default}
use javex.Output
use javex.Control.{Control, Flags, check}
use javex.Budgets.{Budgets}
use javex.Sandbox.{Sandbox, World, Text, finish}
use javex.Sandbox.Finish.{finish-ok_iff}
use javex.Sandbox.Create.{Builders, Store, is_valid_budget, build, new}

module _ (builders : Builders) (input : List ℕ) (opts : Budgets) (control : Control)
    (heap : Heap) where
  open builders use {Limits, Guest, build_store, set_fuel}

  abbrev pub fresh_stdout : Output
  fresh_stdout = record { capacity = opts.max_output; state = heap.next }

  abbrev pub fresh_stderr : Output
  fresh_stderr = record { capacity = opts.max_stderr; state = suc heap.next }

  abbrev pub fresh_guest : Guest
  fresh_guest = build_store input opts.env fresh_stdout fresh_stderr

  -- What a created call looks like, and what it leaves of the heap.
  pub record IsFresh (s : Sandbox) (store : Store Guest Limits) (heap' : Heap) : Type 0 where
    pub same_control : s.control ≡ control
    pub stdout_capacity : s.stdout.capacity ≡ opts.max_output
    pub stderr_capacity : s.stderr.capacity ≡ opts.max_stderr
    pub stdout_place : s.stdout.state ≡ heap.next
    pub stderr_place : s.stderr.state ≡ suc heap.next
    pub stdout_state : heap'.cell s.stdout.state ≡ default
    pub stderr_state : heap'.cell s.stderr.state ≡ default
    pub granted : store.limiter.memory_bytes ≡ 0
    pub memory_limit : store.limiter.max_memory ≡ opts.max_memory
    pub not_exceeded : store.limiter.exceeded ≡ false
    pub limits : store.limiter.limits ≡ builders.build_limits opts.max_memory 100_000
    pub kept : (p : ℕ) → p < heap.next → heap'.cell p ≡ heap.cell p

  build-IsFresh :
      (s : Sandbox) (store : Store Guest Limits) (heap' : Heap)
      → build builders input opts control heap ≡ ok (s, store, heap')
      → IsFresh s store heap'
  unfolding build Output.new Output.store
  build-IsFresh s store heap' e =
      let (guest, fuel, rest) = >>=-eq-ok (set_fuel fresh_guest opts.fuel) _ e in
      let same = ok-injective rest in
      subst (λ r. IsFresh r.0 r.1 r.2) same
        (record {
          same_control = refl;
          stdout_capacity = refl;
          stderr_capacity = refl;
          stdout_place = refl;
          stderr_place = refl;
          stdout_state = ground arith;
          stderr_state = ground arith;
          granted = refl;
          memory_limit = refl;
          not_exceeded = refl;
          limits = refl;
          kept = λ p h. ground arith;
        })

  module _ (flags : Flags) (now : ℕ) where
    -- A call is created exactly with a budget that allows some memory, input and module, while its
    -- control lets it go on, and if the store takes the fuel.
    pub is_err-new : (is_err (new builders input opts control flags now heap) ≡ false) ↔ (
        (is_valid_budget opts ≡ true)
        × (flags.cell control.cancelled ≡ false)
        × (now < control.deadline)
        × (is_err (set_fuel fresh_guest opts.fuel) ≡ false))
    unfolding new check build Output.new
    is_err-new = ground arith

    -- A fresh call has streams with nothing in them, its own and no older call's, with the quotas of
    -- the budget, a limiter that has counted no byte and seen no excess, with the memory of the budget
    -- and 100,000 table elements, and leaves the streams of older calls alone.
    pub new-IsFresh :
        (s : Sandbox) (store : Store Guest Limits) (heap' : Heap)
        → new builders input opts control flags now heap ≡ ok (s, store, heap')
        → IsFresh s store heap'
    unfolding new
    new-IsFresh s store heap' e =
        let (_, _, checked) =
          >>=-eq-ok (ensure (is_valid_budget opts) (message "invalid budget")) _ e in
        let (_, _, built) = >>=-eq-ok (check control flags now) _ checked in
        build-IsFresh s store heap' built

    -- A call that was just created, and whose guest returns at once, succeeds with what was returned.
    pub finish-new :
        {K M A : Type 0} (text : Text) (s : Sandbox) (store : Store Guest Limits)
        (w : World Guest Limits K M) (a : A)
        → new builders input opts control flags now heap ≡ ok (s, store, w.heap)
        → w.flags ≡ flags
        → w.now ≡ now
        → w.limiter ≡ store.limiter
        → finish text s w (ok a) ≡ ok a
    unfolding Output.exceeded
    finish-new text s store w a e same_flags same_now same_limiter =
        let fresh = new-IsFresh s store w.heap e in
        let live = is_err-new.0 (ap is_err e) in
        (finish-ok_iff text s w (ok a) a).1 (
          record {
            running =
                ap (λ f. f.cell s.control.cancelled) same_flags
                ∙ ap (λ c. flags.cell c.cancelled) fresh.same_control
                ∙ live.1;
            in_time = omega (arith, same_now, live.2, ap (λ c. c.deadline) fresh.same_control);
            memory = ap (λ l. l.exceeded) same_limiter ∙ fresh.not_exceeded;
            stdout = ap (λ x. x.exceeded) fresh.stdout_state;
            stderr = ap (λ x. x.exceeded) fresh.stderr_state;
          },
          refl,
        )

    -- Creating a call changes no other call: an older one, whose streams were made before, is
    -- reported as if it had not happened.
    pub finish-new_other :
        {G L K M A : Type 0} (text : Text) (s : Sandbox) (store : Store Guest Limits) (heap' : Heap)
        (older : Sandbox) (w : World G L K M) (result : Result Anyhow A)
        → new builders input opts control flags now heap ≡ ok (s, store, heap')
        → w.heap ≡ heap
        → older.stdout.state < heap.next
        → older.stderr.state < heap.next
        → finish text older (record w { heap = heap' }) result ≡ finish text older w result
    unfolding finish Output.exceeded Output.contents
    finish-new_other text s store heap' older w result e same out diag =
        let fresh = new-IsFresh s store heap' e in
        let first : heap'.cell older.stdout.state ≡ w.heap.cell older.stdout.state =
          fresh.kept _ out ∙ ap (λ h. h.cell older.stdout.state) (sym same) in
        let second : heap'.cell older.stderr.state ≡ w.heap.cell older.stderr.state =
          fresh.kept _ diag ∙ ap (λ h. h.cell older.stderr.state) (sym same) in
        rw (finish, Output.exceeded, Output.contents, first, second)
