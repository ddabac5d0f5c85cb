-- ===== src/Compiler/Cached.antt =====
-- The provider that native/javex_nif/src/compiler.rs keeps is always one that it built.
use javex.Base.{
  ℕ, ◌≡◌, refl, ap, ◌∙◌, Option, Option-cases, none, some, inl, inr, List, Anyhow, Result,
  Result-cases, ok, err, arith,
}
use javex.Compiler.{Provider, cached_runtime, provider}

module _ {H R : Type 0} (dec : Discrete H) (digest : List ℕ → H)
    (build_runtime : List ℕ → Result Anyhow R) where
  -- The runtime was built from a plugin with this hash.
  abbrev pub IsBuilt : H → R → Type 0
  IsBuilt hash runtime =
      (bytes : List ℕ) × (digest bytes ≡ hash) × (build_runtime bytes ≡ ok runtime)

  abbrev pub IsFaithful : Option (Provider H R) → Type 0
  IsFaithful none = Unit {0}
  IsFaithful (some p) = IsBuilt p.hash p.runtime

  abbrev pub Provides : List ℕ → Result Anyhow R → Type 0
  Provides bytes (err e) = Unit {0}
  Provides bytes (ok runtime) = IsBuilt (digest bytes) runtime

  cached-IsBuilt :
      (hash : H) (cached : Option (Provider H R)) (runtime : R)
      → IsFaithful cached
      → cached_runtime dec digest build_runtime hash cached ≡ some runtime
      → IsBuilt hash runtime
  unfolding cached_runtime
  cached-IsBuilt hash none runtime faithful h = cc
  cached-IsBuilt hash (some p) runtime faithful h = elim (dec p.hash hash) [
    | yes same ↦
        let got : p.runtime ≡ runtime = ground arith in
        (faithful.0, faithful.1 ∙ same, faithful.2 ∙ ap (λ r. ok r) got)
    | no other ↦ absurd (ground arith)
  ]

  -- If what is kept was built from a plugin with its hash, so is what is kept after a call, and
  -- what the call gets, if anything, was built from bytes with the hash of the plugin that it asks
  -- for.
  pub provider-IsFaithful :
      (bytes : List ℕ) (cached : Option (Provider H R))
      → IsFaithful cached
      → IsFaithful (provider dec digest build_runtime bytes cached).0
        × Provides bytes (provider dec digest build_runtime bytes cached).1
  unfolding provider
  provider-IsFaithful bytes cached faithful =
      elim (Option-cases (cached_runtime dec digest build_runtime (digest bytes) cached)) [
        | inr (runtime, hit) ↦
            rw (provider, hit) (faithful, cached-IsBuilt (digest bytes) cached runtime faithful hit)
        | inl miss ↦ elim (Result-cases (build_runtime bytes)) [
          | inr (e, failed) ↦ rw (provider, miss, failed) (faithful, tt)
          | inl (runtime, built) ↦
              rw (provider, miss, built) ((bytes, refl, built), (bytes, refl, built))
        ]
      ]
