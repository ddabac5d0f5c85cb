-- ===== src/Compiler/Compile/Kept.antt =====
-- What a compilation leaves (`compile` of native/javex_nif/src/compiler.rs).
use javex.Base.{
  ℕ, ◌+◌, ◌≤◌, ◌≡◌, refl, none, ap, ◌∙◌, Bool, Option, Option-cases, some, inl, inr, List,
  Result-cases, arith, wrapping_sub-eq,
}
use javex.Budgets.{Budgets}
use javex.Control.{Control, check}
use javex.Engine.Runtime.Laws.{build_runtime_again}
use javex.Compiler.{cached_runtime, acquire, release, Provider, provider}
use javex.Compiler.Cached.{IsFaithful, provider-IsFaithful}
use javex.Compiler.Source.{check_source}
use javex.Compiler.Compile.{
  build, process_after, Plugin, Toolchain, Shared, compile_permitted, compile,
}

module _ {H Engine K M : Type 0} (tools : Toolchain H Engine K M) (plugin source : List ℕ)
    (static_mode : Bool) (opts : Budgets) (control : Control) where
  open tools use {dec, digest, threads, parsers}

  -- What is kept was built from a plugin with its hash, with the engine of the process.
  abbrev pub Faithful : Shared H Engine K M → Type 0
  Faithful s = IsFaithful dec digest (build tools s.process) s.kept

  -- A call that builds a plugin changes nothing about how others are built.
  same_builds :
      (s : Shared H Engine K M) (bytes : List ℕ)
      → build tools (process_after tools plugin s) bytes ≡ build tools s.process bytes
  unfolding build process_after
  same_builds s bytes =
      elim (Option-cases
        (cached_runtime dec digest (build tools s.process) (digest plugin) s.kept)) [
          | inr (runtime, hit) ↦ rw (process_after, hit) refl
          | inl miss ↦
              rw (process_after, miss)
                (build_runtime_again threads parsers bytes plugin
                  (record { max_cache_bytes = 0; max_cached_modules = 0 })
                  (record { max_cache_bytes = 0; max_cached_modules = 0 }) s.process)
        ]

  process_after-IsFaithful :
      (s : Shared H Engine K M) (kept : Option (Provider H (Plugin tools)))
      → IsFaithful dec digest (build tools s.process) kept
      → IsFaithful dec digest (build tools (process_after tools plugin s)) kept
  process_after-IsFaithful s none faithful = tt
  process_after-IsFaithful s (some p) (bytes, hashed, built) =
      (bytes, hashed, same_builds s bytes ∙ built)

  permitted_kept :
      (s : Shared H Engine K M)
      → Faithful s
      → ((compile_permitted tools plugin source static_mode opts control s).0.count ≡ s.count)
        × Faithful (compile_permitted tools plugin source static_mode opts control s).0
  unfolding compile_permitted
  permitted_kept s faithful = elim (Result-cases (check control s.host.flags s.host.now)) [
    | inr (e, stopped) ↦ rw (compile_permitted, stopped) (refl, faithful)
    | inl (_, goes_on) ↦
        let now_kept = (provider dec digest (build tools s.process) plugin s.kept).0 in
        let still =
          (provider-IsFaithful dec digest (build tools s.process) plugin s.kept faithful).0 in
        elim (Result-cases (provider dec digest (build tools s.process) plugin s.kept).1) [
          | inr (e, failed) ↦
              rw (compile_permitted, goes_on, failed)
                (refl, process_after-IsFaithful s now_kept still)
          | inl (runtime, got) ↦
              rw (compile_permitted, goes_on, got) (refl, process_after-IsFaithful s now_kept still)
        ]
  ]

  -- However a compilation ends, its permit is given back, and what is kept is still what was built
  -- from a plugin with its hash.
  pub compile_kept :
      (s : Shared H Engine K M)
      → Faithful s
      → ((compile tools plugin source static_mode opts control s).0.count ≡ s.count)
        × Faithful (compile tools plugin source static_mode opts control s).0
  unfolding compile acquire release
  compile_kept s faithful = elim (Result-cases (check_source opts source)) [
    | inr (e, refused) ↦ rw (compile, refused) (refl, faithful)
    | inl (_, good) ↦ elim (Option-cases (acquire s.count)) [
      | inl busy ↦ rw (compile, good, busy) (refl, faithful)
      | inr (count, got) ↦
          let (same, still) = permitted_kept (record s { count = count }) faithful in
          let back : release count ≡ s.count = given_back count got in
          rw (compile, good, got) (ap release same ∙ back, still)
    ]
  ]
    where
      given_back : (count : ℕ) → acquire s.count ≡ some count → release count ≡ s.count
      given_back count got =
          let few : count ≤ 16 = ground (arith, got) in
          let more : count ≡ s.count + 1 = ground (arith, got) in
          wrapping_sub-eq count 1 (omega (arith, more)) (omega (arith, few)) ∙ omega (arith, more)
