-- ===== src/Execution/Start/Cached.antt =====
-- `Execution::start` of native/javex_nif/src/sandbox.rs never panics, and whatever its outcome, it leaves a
-- valid cache.
use javex.Base.{
  ℕ, Option, inl, inr, List, Anyhow, Failure, length, ltb, Result, ok, err, Bool-cases,
  Result-cases,
}
use javex.Control.{Control, check}
use javex.Cache.{Panic}
use javex.Cache.Invariant.{IsValid}
use javex.Budgets.{Budgets}
use javex.Sandbox.{World, Text, Sandbox, finish}
use javex.Sandbox.Create.{Builders, new}
use javex.Execution.{proceed, ◌>>◌, Provider, Execution, check_control}
use javex.Execution.Load.{Loader, load_module}
use javex.Execution.Load.Laws.{Keeps, Returns, proceed-Keeps, HasCache, load_module-Returns}
use javex.Execution.Start.{
  Host, Linking, launch, enter, leave, with_store, Here, execute, assemble, begin, start,
}
use javex.Execution.Start.Harmless.{IsHarmless, launch-Keeps, find_bridge-Keeps}

module _ (builders : Builders) {K M : Type 0} (loader : Loader builders.Guest builders.Limits K M)
    {p : Provider (World builders.Guest builders.Limits K M)}
    (linking : Linking (World builders.Guest builders.Limits K M) M p) (text : Text) where
  module _ (compiles : (bytes : List ℕ) → Keeps (HasCache loader) (loader.from_binary bytes))
      (harmless : IsHarmless linking (HasCache loader)) where
    execute-Returns :
        (opts : Budgets) (control : Control) (wasm : List ℕ) (w : Here builders loader linking text)
        → HasCache loader w
        → Returns (HasCache loader) (execute builders loader linking text opts control wasm w)
    unfolding execute
    execute-Returns opts control wasm w valid = elim (Result-cases (check control w.flags w.now)) [
      | inr (e, ended) ↦ rw (execute, ended) valid
      | inl (_, live) ↦
          rw (execute, live)
            (launched (load_module loader wasm w)
              (load_module-Returns loader wasm w compiles valid))
    ]
      where
        launched :
            (loaded : Result Panic (Here builders loader linking text × Result Anyhow M))
            → Returns (HasCache loader) loaded
            → Returns (HasCache loader) (elim loaded [
              | err panic ↦ err panic
              | ok r ↦ ok (proceed r (λ m. check_control control >> launch linking opts m))
            ])
        launched (err panic) never = never
        launched (ok (w', r)) valid' =
            proceed-Keeps (HasCache loader) (w', r) _ valid'
              (λ m w1 v1.
                proceed-Keeps (HasCache loader) (check_control control w1) _ v1
                  (λ _. launch-Keeps linking (HasCache loader) harmless opts m))

    assemble-HasCache :
        (opts : Budgets) (sandbox : Sandbox)
        (r : Here builders loader linking text × Result Anyhow (Option linking.Instance))
        → HasCache loader r.0
        → HasCache loader (assemble builders loader linking text opts sandbox r).0
    unfolding assemble
    assemble-HasCache opts sandbox (w, result) valid =
        elim (Result-cases (finish text sandbox w result)) [
          | inr (f, failed) ↦ rw (assemble, failed) valid
          | inl (provider, good) ↦
              rw (assemble, good)
                (find_bridge-Keeps linking (HasCache loader) harmless provider w valid)
        ]

    begin-Returns :
        (opts : Budgets) (control : Control) (wasm : List ℕ) (sandbox : Sandbox)
        (w : Here builders loader linking text)
        → HasCache loader w
        → Returns (HasCache loader) (begin builders loader linking text opts control wasm sandbox w)
    unfolding begin
    begin-Returns opts control wasm sandbox w valid =
        assembled (execute builders loader linking text opts control wasm w)
          (execute-Returns opts control wasm w valid)
      where
        assembled :
            (executed : Result Panic
              (Here builders loader linking text × Result Anyhow (Option linking.Instance)))
            → Returns (HasCache loader) executed
            → Returns (HasCache loader) (elim executed [
              | err panic ↦ err panic
              | ok r ↦ ok (assemble builders loader linking text opts sandbox r)
            ])
        assembled (err panic) never = never
        assembled (ok r) valid' = assemble-HasCache opts sandbox r valid'

    -- If the compiler and the guest leave the cache valid, `start` returns with no panic, and leaves a
    -- valid cache, whatever becomes of the call.
    pub start-Returns :
        (wasm input : List ℕ) (opts : Budgets) (control : Control) (host : Host K M)
        → IsValid loader.dec host.cache
        → Returns
            (λ h. IsValid loader.dec h.cache)
            (start builders loader linking text wasm input opts control host)
    unfolding start
    start-Returns wasm input opts control host valid =
        elim (Bool-cases (ltb opts.max_input (length input))) [
          | inl long ↦ rw (start, long) valid
          | inr short ↦ elim (Bool-cases (ltb opts.max_module (length wasm))) [
            | inl large ↦ rw (start, short, large) valid
            | inr small ↦
                elim (Result-cases
                  (new builders input opts control host.flags host.now host.heap)) [
                    | inr (e, refused) ↦ rw (start, short, small, refused) valid
                    | inl ((sandbox, store, heap), made) ↦
                        rw (start, short, small, made)
                          (left
                            (begin builders loader linking text opts control wasm sandbox
                              (enter store heap host))
                            (begin-Returns opts control wasm sandbox (enter store heap host) valid))
                  ]
          ]
        ]
      where
        left :
            (begun : Result Panic
              (Here builders loader linking text × Result Failure (Execution p)))
            → Returns (HasCache loader) begun
            → Returns {W = Host K M}
                (λ h. IsValid loader.dec h.cache)
                (elim begun [
                  | err panic ↦ err panic
                  | ok (w, result) ↦ ok (leave w, with_store w result)
                ])
        left (err panic) never = never
        left (ok (w, r)) valid' = valid'
