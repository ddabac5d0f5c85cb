-- ===== src/Child/Setup/Order.antt =====
-- The order of what `child` in native/javex_nif/src/worker.rs does before it has a request.
use javex.Base.{
  ℕ, ◌≡◌, refl, sym, ap, ap₂, ◌∙◌, subst, Bool, true, false, List, [], ◌∷◌, Anyhow, Result, ok, err,
  ok-injective, ok-ne-err,
}
use javex.Engine.Once.{initialize_engine_again}
use javex.Engine.{initialize_engine}
use javex.Ipc.{Parts, request}
use javex.Execution.{Act, proceed, lift}
use javex.Execution.Advance.Laws.{proceed-eq-ok}
use javex.Isolation.{filter}
use javex.Isolation.Prepare
use javex.Isolation.Prepare.{IsConfined, prepare_iff}
use javex.Isolation.Install.{restrict_syscalls, restrict_syscalls_iff}
use javex.Child.Setup.{
  Deed, confines, starts_clock, starts_runtime, restricts, reads, Boot, Platform, perform,
  start_clock, start_runtime, with_rest, read_request, set_up,
}

-- The process is confined, and the policy is in force.
abbrev pub is_confined : List Deed → Bool
is_confined [] = false
is_confined (confines ∷ deeds) = true
is_confined (starts_clock ∷ deeds) = is_confined deeds
is_confined (starts_runtime ∷ deeds) = is_confined deeds
is_confined (restricts ∷ deeds) = is_confined deeds
is_confined (reads ∷ deeds) = is_confined deeds

abbrev pub is_restricted : List Deed → Bool
is_restricted [] = false
is_restricted (restricts ∷ deeds) = true
is_restricted (confines ∷ deeds) = is_restricted deeds
is_restricted (starts_clock ∷ deeds) = is_restricted deeds
is_restricted (starts_runtime ∷ deeds) = is_restricted deeds
is_restricted (reads ∷ deeds) = is_restricted deeds

-- Threads start in a confined process and before the policy, and input is read after both.
abbrev pub IsOrdered : List Deed → Type 0
IsOrdered [] = Unit {0}
IsOrdered (confines ∷ deeds) = IsOrdered deeds
IsOrdered (restricts ∷ deeds) = IsOrdered deeds
IsOrdered (starts_clock ∷ deeds) =
    (is_confined deeds ≡ true) × (is_restricted deeds ≡ false) × IsOrdered deeds
IsOrdered (starts_runtime ∷ deeds) =
    (is_confined deeds ≡ true) × (is_restricted deeds ≡ false) × IsOrdered deeds
IsOrdered (reads ∷ deeds) =
    (is_confined deeds ≡ true) × (is_restricted deeds ≡ true) × IsOrdered deeds

module _ {Engine : Type 0} (platform : Platform Engine) (parent memory timeout : ℕ) where
  open platform use {grants, ppid, threads, build_tokio, recv_tokio, libc, arch, pid, installs}

  with_rest_deeds :
      (w : Boot Engine) (r : Result Anyhow (Parts × List ℕ))
      → (with_rest platform w r).0.deeds ≡ w.deeds
  with_rest_deeds w (ok (parts, stdin)) = refl
  with_rest_deeds w (err e) = refl

  -- The states of the set-up, by what was done.
  abbrev Did : List Deed → Boot Engine → Type 0
  Did deeds w = w.deeds ≡ deeds

  abbrev Ordered : {A : Type 0} → Boot Engine × Result Anyhow A → Type 0
  Ordered r = IsOrdered r.0.deeds

  proceed-Ordered :
      {A B : Type 0} (r : Boot Engine × Result Anyhow A) (next : A → Act (Boot Engine) B)
      → Ordered r
      → ((a : A) → r.1 ≡ ok a → Ordered (next a r.0))
      → Ordered (proceed r next)
  proceed-Ordered (w, ok a) next before after = after a refl
  proceed-Ordered (w, err e) next before after = before

  -- A deed is done if it succeeded, and else nothing is.
  perform-Did :
      (deeds : List Deed) (deed : Deed) (r : Result Anyhow (Unit {0})) (w : Boot Engine)
      → Did deeds w
      → IsOrdered deeds
      → IsOrdered (deed ∷ deeds)
      → Ordered (perform platform deed r w)
        × ((u : Unit {0})
            → (perform platform deed r w).1 ≡ ok u
            → Did (deed ∷ deeds) (perform platform deed r w).0)
  perform-Did deeds deed (ok _) w did before after =
      let now : deed ∷ w.deeds ≡ deed ∷ deeds = ap (λ ds. deed ∷ ds) did in
      (subst IsOrdered (sym now) after, λ u h. now)
  perform-Did deeds deed (err e) w did before after =
      (subst IsOrdered (sym did) before, λ u h. absurd (ok-ne-err (sym h)))

  after_policy :
      (w : Boot Engine)
      → Did (restricts ∷ starts_runtime ∷ starts_clock ∷ confines ∷ []) w
      → Ordered (read_request platform w)
  after_policy w did =
      subst IsOrdered
        (sym (
          with_rest_deeds (record w { deeds = reads ∷ w.deeds }) (request w.stdin)
          ∙ ap (λ ds. reads ∷ ds) did))
        (refl, refl, threads_first)
    where
      threads_first : IsOrdered (starts_runtime ∷ starts_clock ∷ confines ∷ [])
      threads_first = (refl, refl, (refl, refl, tt))

  -- However far the set-up gets: no input is read before the process is confined and the policy in
  -- force, and no thread is started before the former or after the latter.
  pub set_up-IsOrdered :
      (w : Boot Engine) → w.deeds ≡ [] → IsOrdered (set_up platform parent memory timeout w).0.deeds
  unfolding set_up
  set_up-IsOrdered w fresh =
      let (first, confined) =
        perform-Did [] confines (Prepare.prepare grants ppid parent memory timeout) w fresh tt tt in
      proceed-Ordered
        (perform platform confines (Prepare.prepare grants ppid parent memory timeout) w) _ first
        (λ u done.
          confined_
            (perform platform confines (Prepare.prepare grants ppid parent memory timeout) w).0
            (confined u done))
    where
      threads_first : IsOrdered (starts_runtime ∷ starts_clock ∷ confines ∷ [])
      threads_first = (refl, refl, (refl, refl, tt))

      started :
          (w : Boot Engine)
          → Did (starts_runtime ∷ starts_clock ∷ confines ∷ []) w
          → Ordered (
              proceed
                (perform platform restricts (restrict_syscalls libc installs arch pid) w)
                (λ _. read_request platform))
      started w did =
          let (kept, restricted) =
            perform-Did (starts_runtime ∷ starts_clock ∷ confines ∷ []) restricts
              (restrict_syscalls libc installs arch pid) w did threads_first threads_first in
          proceed-Ordered (perform platform restricts (restrict_syscalls libc installs arch pid) w)
            (λ _. read_request platform) kept
            (λ u done.
              after_policy
                (perform platform restricts (restrict_syscalls libc installs arch pid) w).0
                (restricted u done))

      confined_ :
          (w : Boot Engine)
          → Did (confines ∷ []) w
          → Ordered (
              proceed (start_clock platform w) (λ _ w2. proceed (start_runtime platform w2) (λ _ w3.
                proceed (lift recv_tokio w3) (λ _ w4.
                  proceed
                    (perform platform restricts (restrict_syscalls libc installs arch pid) w4)
                    (λ _. read_request platform)))))
      confined_ w did =
          let clock : Did (starts_clock ∷ confines ∷ []) (start_clock platform w).0 =
            ap (λ ds. starts_clock ∷ ds) did in
          let both : Did (starts_runtime ∷ starts_clock ∷ confines ∷ [])
              (start_runtime platform (start_clock platform w).0).0 =
            ap (λ ds. starts_runtime ∷ ds) clock in
          let w2 = (start_clock platform w).0 in
          let w3 = (start_runtime platform w2).0 in
          proceed-Ordered (start_clock platform w) _ (subst IsOrdered (sym clock) (refl, refl, tt))
            (λ _ _.
              proceed-Ordered (start_runtime platform w2) _
                (subst IsOrdered (sym both) threads_first)
                (λ _ _.
                  proceed-Ordered (lift recv_tokio w3) _ (subst IsOrdered (sym both) threads_first)
                    (λ _ _. started w3 both)))

  -- What is known of a process that has its request: it is confined, the kernel took the policy, and
  -- the engine is there, so that no later call for it starts a thread.
  pub record IsReady (w w' : Boot Engine) (parts : Parts) : Type 0 where
    pub confined : IsConfined grants ppid parent memory timeout
    pub installed : installs (filter libc arch pid) ≡ true
    pub settled : (isolated : Bool) → (initialize_engine threads isolated w'.process).0 ≡ w'.process
    pub received : request w.stdin ≡ ok (parts, w'.stdin)

  perform-ok :
      (deed : Deed) (r : Result Anyhow (Unit {0})) (w w' : Boot Engine) (u : Unit {0})
      → perform platform deed r w ≡ (w', ok u)
      → (r ≡ ok tt) × (w'.process ≡ w.process) × (w'.stdin ≡ w.stdin)
  perform-ok deed (ok tt) w w' u h =
      (refl, ap (λ r. r.0.process) (sym h), ap (λ r. r.0.stdin) (sym h))
  perform-ok deed (err e) w w' u h = absurd (ok-ne-err (sym (ap (λ r. r.1) h)))

  with_rest-ok :
      (w w' : Boot Engine) (r : Result Anyhow (Parts × List ℕ)) (parts : Parts)
      → with_rest platform w r ≡ (w', ok parts)
      → (r ≡ ok (parts, w'.stdin)) × (w'.process ≡ w.process)
  with_rest-ok w w' (ok (parts', stdin)) parts h = (
    ap₂ (λ x y. ok (x, y)) (ok-injective (ap (λ r. r.1) h)) (ap (λ r. r.0.stdin) h),
    ap (λ r. r.0.process) (sym h),
  )
  with_rest-ok w w' (err e) parts h = absurd (ok-ne-err (sym (ap (λ r. r.1) h)))

  -- A process that has its request is confined, the kernel took the policy, no later call for the
  -- engine does anything, and the request is what stdin held.
  pub set_up-IsReady :
      (w w' : Boot Engine) (parts : Parts)
      → set_up platform parent memory timeout w ≡ (w', ok parts)
      → IsReady w w' parts
  unfolding set_up
  set_up-IsReady w w' parts h =
      let (w1, u1, done1, h1) =
        proceed-eq-ok
          (perform platform confines (Prepare.prepare grants ppid parent memory timeout) w) _ h in
      let (w2, u2, done2, h2) = proceed-eq-ok (start_clock platform w1) _ h1 in
      let (w3, u3, done3, h3) = proceed-eq-ok (start_runtime platform w2) _ h2 in
      let (w4, u4, done4, h4) = proceed-eq-ok (lift recv_tokio w3) _ h3 in
      let (w5, u5, done5, h5) =
        proceed-eq-ok (perform platform restricts (restrict_syscalls libc installs arch pid) w4) _
          h4 in
      let one =
        perform-ok confines (Prepare.prepare grants ppid parent memory timeout) w w1 u1 done1 in
      let five = perform-ok restricts (restrict_syscalls libc installs arch pid) w4 w5 u5 done5 in
      let last =
        with_rest-ok (record w5 { deeds = reads ∷ w5.deeds }) w' (request w5.stdin) parts h5 in
      let same_process : w'.process ≡ (initialize_engine threads true w1.process).0 =
        last.1
        ∙ five.1
        ∙ ap (λ r. r.0.process) (sym done4)
        ∙ ap (λ r. r.0.process) (sym done3)
        ∙ ap (λ r. r.0.process) (sym done2) in
      let same_stdin : w5.stdin ≡ w.stdin =
        five.2
        ∙ ap (λ r. r.0.stdin) (sym done4)
        ∙ ap (λ r. r.0.stdin) (sym done3)
        ∙ ap (λ r. r.0.stdin) (sym done2)
        ∙ one.2 in
      record {
        confined = (prepare_iff grants ppid parent memory timeout).0 one.0;
        installed = (restrict_syscalls_iff libc installs arch pid).0 five.0;
        settled = λ isolated.
            subst (λ q. (initialize_engine threads isolated q).0 ≡ q) (sym same_process)
              (initialize_engine_again threads isolated true w1.process.engine w1.process.clocks).0;
        received = ap request (sym same_stdin) ∙ last.0;
      }
