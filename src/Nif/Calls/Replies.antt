-- ===== src/Nif/Calls/Replies.antt =====
-- What the functions of native/javex_nif/src/lib.rs reply.
use javex.Base.{
  ℕ, ◌≡◌, refl, Bool, true, false, Option, none, some, List, [], ◌∷◌, Failure, Result, ok, err,
  >>=-eq-ok, ok-injective, ok-ne-err, ap₂, ◌⊎◌, String, sym, ap, ◌∙◌, length, ensure, inl, inr,
  Anyhow,
}
use javex.Budgets.{Budgets}
use javex.Control.{Control}
use javex.Cache.{Panic}
use javex.Sandbox.{World, Text}
use javex.Sandbox.Create.{Builders, Store}
use javex.Execution.{Provider, Execution}
use javex.Execution.Advance.{StateJson}
use javex.Execution.Advance.Laws.{ReadsWhole}
use javex.Execution.Load.{Loader}
use javex.Execution.Start.{Host, Linking, enter, start}
use javex.Compiler.Cached.{IsFaithful}
use javex.Compiler.Compile.{build, Toolchain, Shared, compile}
use javex.Compiler.Compile.Compiled.{IsCompiled, compile-IsCompiled}
use javex.Nif.{NifError, bad_arg, Reply, Slot, binary}
use javex.Nif.Conversation.{Talks, converse, converse-Talks}
use javex.Nif.Calls.{
  Mode, dynamic, static_, other_atom, Compilation, compiled, failed, hash_for, encode_module,
  encoded_with, compile_nif, There, new_slot, first_reply, run_start,
}

module _ (allocates : ℕ → Bool) (builders : Builders) {K M : Type 0}
    (loader : Loader builders.Guest builders.Limits K M)
    {p : Provider (World builders.Guest builders.Limits K M)}
    (linking : Linking (World builders.Guest builders.Limits K M) M p) (text : Text)
    (json : StateJson) where
  -- All replies from `run_start` on, with the calls of `run_step` that follow if there is a resource.
  abbrev pub replies :
      List (
        List ℕ
        × (There allocates builders loader linking text json
            → There allocates builders loader linking text json))
      → Result Panic (
          Option (Slot p × There allocates builders loader linking text json)
          × Result NifError Reply)
      → List (Result NifError Reply)
  replies calls (err panic) = []
  replies calls (ok (none, reply)) = reply ∷ []
  replies calls (ok (some (slot, w), reply)) = reply ∷ converse allocates text json calls slot w

  first_reply-Talks :
      (calls : List (
        List ℕ
        × (There allocates builders loader linking text json
            → There allocates builders loader linking text json)))
      (r : Result Panic
        (Host K M × Result Failure (Execution p × Store builders.Guest builders.Limits)))
      → Talks (replies calls (first_reply allocates builders loader linking text json r))
  unfolding first_reply converse
  first_reply-Talks calls (err panic) = tt
  first_reply-Talks calls (ok (host, err (kind, message))) = tt
  first_reply-Talks calls (ok (host, ok (e, store))) =
      converse-Talks allocates text json ((91 ∷ 93 ∷ [], λ w. w) ∷ calls)
        (new_slot allocates builders loader linking text json e) (enter store host.heap host)

  -- From the start of a call on, whatever others do to the world between the steps, at most one reply is
  -- final, and every call of `run_step` after that is refused as a bad argument.
  pub run_start-Talks :
      (wasm input : List ℕ) (opts : Budgets) (control : Control) (host : Host K M)
      (calls : List (
        List ℕ
        × (There allocates builders loader linking text json
            → There allocates builders loader linking text json)))
      → Talks (
          replies calls
            (run_start allocates builders loader linking text json wasm input opts control host))
  unfolding run_start
  run_start-Talks wasm input opts control host calls =
      first_reply-Talks calls (start builders loader linking text wasm input opts control host)

binary-ok :
    (allocates : ℕ → Bool) (bytes sent : List ℕ) → binary allocates bytes ≡ ok sent → bytes ≡ sent
unfolding binary
binary-ok allocates bytes sent h =
    let (_, room, same) = >>=-eq-ok (ensure (allocates (length bytes)) bad_arg) _ h in
    ok-injective same

module _ (allocates : ℕ → Bool) {H Engine K M : Type 0} (tools : Toolchain H Engine K M)
    (sha256 : List ℕ → List ℕ) where
  compiled-ne-failed :
      {bytes hash : List ℕ} {e : String}
      → ◌≡◌ {A = Compilation} (failed e) (compiled bytes hash)
      → ⊥
  compiled-ne-failed h = cc

  encoded :
      (mode : Mode) (plugin bytes hash : List ℕ) (result : Result Anyhow (List ℕ))
      → encode_module allocates tools sha256 mode plugin result ≡ ok (compiled bytes hash)
      → (result ≡ ok bytes) × (hash_for allocates tools sha256 mode plugin ≡ hash)
  unfolding encode_module
  encoded mode plugin bytes hash (err e) h = absurd (compiled-ne-failed (ok-injective h))
  encoded mode plugin bytes hash (ok made) h =
      let (sent, one, h1) = >>=-eq-ok (binary allocates made) _ h in
      let (digest, two, h2) =
        >>=-eq-ok (binary allocates (hash_for allocates tools sha256 mode plugin)) _ h1 in
      let same = ok-injective h2 in
      (
        ap (λ b. ok b) (binary-ok allocates made sent one ∙ ap bytes_of same),
        binary-ok allocates (hash_for allocates tools sha256 mode plugin) digest two
            ∙ ap hash_of same,
      )
    where
      bytes_of : Compilation → List ℕ
      bytes_of (compiled b h') = b
      bytes_of (failed t) = []

      hash_of : Compilation → List ℕ
      hash_of (compiled b h') = h'
      hash_of (failed t) = []

  encoded_with-ok :
      (mode : Mode) (plugin bytes hash : List ℕ) (s' : Shared H Engine K M)
      (r : Shared H Engine K M × Result Anyhow (List ℕ))
      → encoded_with allocates tools sha256 mode plugin r ≡ (s', ok (compiled bytes hash))
      → (r ≡ (s', ok bytes)) × (hash_for allocates tools sha256 mode plugin ≡ hash)
  encoded_with-ok mode plugin bytes hash s' (s, result) h =
      let (made, hashed) = encoded mode plugin bytes hash result (ap (λ x. x.1) h) in
      (ap₂ (λ x y. (x, y)) (ap (λ x. x.0) h) made, hashed)

  -- If reads of the memory are whole and what is kept is faithful, a module that `compile` sends is
  -- either for the dynamic mode, made as a dynamic module, and comes with the hash of the plugin, or
  -- for the static mode, made as a static module, and comes with no hash.
  pub compile_nif-IsCompiled :
      (plugin source : List ℕ) (mode : Mode) (opts : Budgets) (control : Control)
      (s s' : Shared H Engine K M) (bytes hash : List ℕ)
      → ReadsWhole tools.guest
      → IsFaithful tools.dec tools.digest (build tools s.process) s.kept
      → compile_nif allocates tools sha256 plugin source mode opts control s
        ≡ (s', ok (compiled bytes hash))
      → ((mode ≡ dynamic)
          × (hash ≡ sha256 plugin)
          × IsCompiled tools plugin source false opts control s s'.host bytes)
        ⊎ ((mode ≡ static_)
            × (hash ≡ [])
            × IsCompiled tools plugin source true opts control s s'.host bytes)
  unfolding compile_nif
  compile_nif-IsCompiled plugin source dynamic opts control s s' bytes hash whole faithful h =
      let (made, hashed) =
        encoded_with-ok dynamic plugin bytes hash s'
          (compile tools plugin source false opts control s) h in
      inl (
        refl,
        sym hashed,
        compile-IsCompiled tools plugin source false opts control whole s s' bytes faithful made,
      )
  compile_nif-IsCompiled plugin source static_ opts control s s' bytes hash whole faithful h =
      let (made, hashed) =
        encoded_with-ok static_ plugin bytes hash s'
          (compile tools plugin source true opts control s) h in
      inr (
        refl,
        sym hashed,
        compile-IsCompiled tools plugin source true opts control whole s s' bytes faithful made,
      )
  compile_nif-IsCompiled plugin source other_atom opts control s s' bytes hash whole faithful h =
      absurd (ok-ne-err (sym (ap (λ x. x.1) h)))
