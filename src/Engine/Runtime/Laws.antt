-- ===== src/Engine/Runtime/Laws.antt =====
-- When `build_runtime` of native/javex_nif/src/sandbox.rs succeeds, and what it makes.
use javex.Base.{
  ℕ, ◌≤◌, ◌≡◌, ◌↔◌, refl, sym, ap, ◌∙◌, subst, true, false, Bool-cases, some, inl, inr, List, [],
  ◌∷◌, String, str_eq, Anyhow, message, Result, ok, err, ok-injective, length, leb, leb→le, ◌>>=◌,
  >>=-eq-ok, ok_or, ok_or-eq-ok, from_utf8, arith,
}
use javex.Cache.{CacheOptions, empty}
use javex.Engine.Once.{initialize_engine_again}
use javex.Engine.{Threads, Process, initialize_engine}
use javex.Engine.Runtime.{
  Payload, custom_section, other_payload, Parsers, Runtime, text_of, namespace_in, find_namespace,
  max_provider, load_plugin, build_runtime,
}

-- These bytes are what the first section of the name says, whatever comes after it.
pub data Declares (bytes : List ℕ) : List (Result Anyhow Payload) → Type 0 where
  here :
      (name : String) (sections : List (Result Anyhow Payload))
      → str_eq name "import_namespace" ≡ true
      → Declares bytes (ok (custom_section name bytes) ∷ sections)
  past_other :
      (sections : List (Result Anyhow Payload))
      → Declares bytes sections
      → Declares bytes (ok other_payload ∷ sections)
  past_error :
      (e : Anyhow) (sections : List (Result Anyhow Payload))
      → Declares bytes sections
      → Declares bytes (err e ∷ sections)
  past_custom :
      (name : String) (data_ : List ℕ) (sections : List (Result Anyhow Payload))
      → str_eq name "import_namespace" ≡ false
      → Declares bytes sections
      → Declares bytes (ok (custom_section name data_) ∷ sections)

text_of-ok :
    (data_ bytes : List ℕ) → text_of data_ ≡ ok bytes → (data_ ≡ bytes) × (from_utf8 data_ ≡ ok tt)
unfolding text_of
text_of-ok data_ bytes h =
    let (_, good, same) = >>=-eq-ok (from_utf8 data_) _ h in (ok-injective same, good)

find_namespace-Declares :
    (sections : List (Result Anyhow Payload)) (bytes : List ℕ)
    → find_namespace sections ≡ some (ok bytes)
    → Declares bytes sections × (from_utf8 bytes ≡ ok tt)
unfolding find_namespace namespace_in
find_namespace-Declares [] bytes h = cc
find_namespace-Declares (err e ∷ sections) bytes h =
    let (found, good) = find_namespace-Declares sections bytes h in
    (past_error e sections found, good)
find_namespace-Declares (ok other_payload ∷ sections) bytes h =
    let (found, good) = find_namespace-Declares sections bytes h in
    (past_other sections found, good)
find_namespace-Declares (ok (custom_section name data_) ∷ sections) bytes h =
    elim (Bool-cases (str_eq name "import_namespace")) [
      | inl named ↦
          let (same, good) = text_of-ok data_ bytes (ground (arith, h, named)) in
          (
            subst (λ b. Declares b (ok (custom_section name data_) ∷ sections)) same
                (here name sections named),
            subst (λ b. from_utf8 b ≡ ok tt) same good,
          )
      | inr on ↦
          let (found, good) = find_namespace-Declares sections bytes (ground (arith, h, on)) in
          (past_custom name data_ sections on found, good)
    ]

Declares-find_namespace :
    (bytes : List ℕ) (sections : List (Result Anyhow Payload))
    → Declares bytes sections
    → from_utf8 bytes ≡ ok tt
    → find_namespace sections ≡ some (ok bytes)
unfolding find_namespace namespace_in text_of
Declares-find_namespace bytes _ (here name sections named) good = rw (find_namespace, named, good)
Declares-find_namespace bytes _ (past_other sections d) good =
    Declares-find_namespace bytes sections d good
Declares-find_namespace bytes _ (past_error e sections d) good =
    Declares-find_namespace bytes sections d good
Declares-find_namespace bytes _ (past_custom name data_ sections on d) good =
    rw (find_namespace, on) (Declares-find_namespace bytes sections d good)

module _ {Engine K M : Type 0} (threads : Threads Engine) (parsers : Parsers Engine M) where
  open parsers use {from_binary, parse_all}

  -- What is to be known of a plugin, in a process that has this engine, for it to become a runtime.
  pub record IsLoaded (bytes : List ℕ) (limits : CacheOptions) (engine : Result Anyhow Engine)
      (r : Runtime Engine K M) : Type 0 where
    pub small : length bytes ≤ max_provider
    pub same_engine : engine ≡ ok r.engine
    pub compiled : from_binary r.engine bytes ≡ ok r.plugin
    pub declared : Declares r.namespace (parse_all bytes)
    pub utf8 : from_utf8 r.namespace ≡ ok tt
    pub fresh : r.cache ≡ empty limits

  loaded :
      (bytes : List ℕ) (limits : CacheOptions) (engine : Result Anyhow Engine)
      (r : Runtime Engine K M)
      → length bytes ≤ max_provider
      → (engine >>= load_plugin threads parsers bytes limits) ≡ ok r
      → IsLoaded bytes limits engine r
  unfolding load_plugin
  loaded bytes limits engine r small h =
      let (made, got, h1) = >>=-eq-ok engine _ h in
      let (plugin, compiled, h2) = >>=-eq-ok (from_binary made bytes) _ h1 in
      let (found, some_, h3) =
        >>=-eq-ok
          (ok_or (find_namespace (parse_all bytes)) (message "plugin is missing import_namespace"))
          _ h2 in
      let (namespace, good, h4) = >>=-eq-ok found _ h3 in
      let (declared, utf8) = find_namespace-Declares (parse_all bytes) namespace (
        ok_or-eq-ok (find_namespace (parse_all bytes))
          (message "plugin is missing import_namespace") some_
        ∙ ap (λ x. some x) good) in
      subst (IsLoaded bytes limits engine) (ok-injective h4) (record {
        small = small;
        same_engine = got;
        compiled = compiled;
        declared = declared;
        utf8 = utf8;
        fresh = refl;
      })

  load_back :
      (bytes : List ℕ) (limits : CacheOptions) (engine : Result Anyhow Engine)
      (r : Runtime Engine K M)
      → IsLoaded bytes limits engine r
      → (engine >>= load_plugin threads parsers bytes limits) ≡ ok r
  unfolding load_plugin
  load_back bytes limits engine r l =
      let found = Declares-find_namespace r.namespace (parse_all bytes) l.declared l.utf8 in
      ap (λ e. e >>= load_plugin threads parsers bytes limits) l.same_engine
      ∙ (rw (load_plugin, l.compiled, found) (ap (λ c. ok (record r { cache = c })) (sym l.fresh)))

  -- A plugin becomes a runtime exactly if it has at most 8 MiB, there is an engine, wasmtime compiles
  -- it, and the first section called `import_namespace` is UTF-8, which is then the namespace. Its
  -- cache is empty.
  pub build_runtime_iff :
      (bytes : List ℕ) (limits : CacheOptions) (p : Process Engine) (r : Runtime Engine K M)
      → ((build_runtime threads parsers bytes limits p).1 ≡ ok r)
        ↔ IsLoaded bytes limits (initialize_engine threads false p).1 r
  unfolding build_runtime
  build_runtime_iff bytes limits p r = elim (Bool-cases (leb (length bytes) max_provider)) [
    | inl small ↦ (
      λ h.
          loaded bytes limits (initialize_engine threads false p).1 r
            (leb→le (length bytes) max_provider small) (ground (arith, h, small)),
      λ l.
          rw (build_runtime, small)
            (load_back bytes limits (initialize_engine threads false p).1 r l),
    )
    | inr big ↦ (λ h. absurd (ground (arith, h, big)), λ l. absurd (too_big big l.small))
  ]
    where
      too_big : leb (length bytes) max_provider ≡ false → length bytes ≤ max_provider → ⊥
      too_big big small = ground arith

  -- Once a plugin was built, or was not, every other is built as before.
  pub build_runtime_again :
      (bytes other_bytes : List ℕ) (limits other_limits : CacheOptions) (p : Process Engine)
      → ◌≡◌ {A = Result Anyhow (Runtime Engine K M)}
          (build_runtime threads parsers bytes limits
            (build_runtime {K = K} threads parsers other_bytes other_limits p).0).1
          (build_runtime threads parsers bytes limits p).1
  unfolding build_runtime
  build_runtime_again bytes other_bytes limits other_limits p =
      elim (Bool-cases (leb (length other_bytes) max_provider)) [
        | inr big ↦ rw (build_runtime, big) refl
        | inl fits ↦ elim (Bool-cases (leb (length bytes) max_provider)) [
          | inr big ↦ rw (build_runtime, fits, big) refl
          | inl small ↦
              rw (build_runtime, fits, small)
                (ap (λ e. e >>= load_plugin threads parsers bytes limits)
                  (initialize_engine_again threads false false p.engine p.clocks).1)
        ]
      ]
