-- ===== src/Nif/Calls.antt =====
-- The other functions of native/javex_nif/src/lib.rs, each over what it calls. A resource is handed on as
-- what it holds.
pub mod Replies
mod Tests
use javex.Base.{
  ℕ, Bool, true, false, Option, none, some, List, [], ◌∷◌, String, Anyhow, Failure, Result, ok, err,
  map_err, ◌>>=◌,
}
use javex.Budgets.{Budgets}
use javex.Control.{Control, Flags}
use javex.Control
use javex.Cache.{CacheOptions, CacheStats, Panic, stats}
use javex.Sandbox.{World, Text}
use javex.Sandbox.Create.{Builders, Store}
use javex.Engine.{Threads, Process}
use javex.Engine.Runtime.{Parsers, Runtime, build_runtime}
use javex.Execution.{Provider, Execution}
use javex.Execution.Advance.{StateJson}
use javex.Execution.Load.{Loader}
use javex.Execution.Start.{Host, Linking, enter, start}
use javex.Compiler.Compile.{Toolchain, Shared, compile}
use javex.Nif.{
  NifError, bad_arg, Reply, replied_ok, replied_continue, replied_error, Slot, binary, advance_slot,
}

unfoldable pub control_new : ℕ → ℕ → Flags → Result NifError (Control × Flags)
control_new timeout_ms now flags = map_err (λ _. bad_arg) (Control.new timeout_ms now flags)

unfoldable pub cancel : Control → Flags → Flags
cancel control flags = Control.cancel control flags

unfoldable pub runtime_stats : {Engine K M : Type 0} → Runtime Engine K M → CacheStats
runtime_stats runtime = stats runtime.cache

-- `{:ok, runtime}`, or `{:error, text}`
unfoldable pub runtime_new :
    {Engine K M : Type 0}
    → Threads Engine
    → Parsers Engine M
    → Text
    → List ℕ
    → CacheOptions
    → Process Engine
    → Process Engine × Result String (Runtime Engine K M)
runtime_new threads parsers text plugin limits p =
    let (p', result) = build_runtime threads parsers plugin limits p in
    (p', map_err text.format result)

-- The atoms for a mode, and any other atom.
pub data Mode : Type 0 where
  dynamic static_ other_atom : Mode

abbrev pub is_static : Mode → Bool
is_static static_ = true
is_static dynamic = false
is_static other_atom = false

-- What `compile` sends: `{:ok, {bytes, hash}}`, or `{:error, text}`.
pub data Compilation : Type 0 where
  compiled : List ℕ → List ℕ → Compilation
  failed : String → Compilation

module _ (allocates : ℕ → Bool) {H Engine K M : Type 0} (tools : Toolchain H Engine K M)
    (sha256 : List ℕ → List ℕ) where
  abbrev pub hash_for : Mode → List ℕ → List ℕ
  hash_for dynamic plugin = sha256 plugin
  hash_for static_ plugin = []
  hash_for other_atom plugin = []

  unfoldable pub encode_module :
      Mode → List ℕ → Result Anyhow (List ℕ) → Result NifError Compilation
  encode_module mode plugin (err e) = ok (failed (tools.text.format e))
  encode_module mode plugin (ok bytes) = do
    sent ← binary allocates bytes
    hash ← binary allocates (hash_for mode plugin)
    ok (compiled sent hash)

  abbrev pub encoded_with :
      Mode
      → List ℕ
      → Shared H Engine K M × Result Anyhow (List ℕ)
      → Shared H Engine K M × Result NifError Compilation
  encoded_with mode plugin (s, result) = (s, encode_module mode plugin result)

  unfoldable pub compile_nif :
      List ℕ
      → List ℕ
      → Mode
      → Budgets
      → Control
      → Shared H Engine K M
      → Shared H Engine K M × Result NifError Compilation
  unfolding encode_module
  compile_nif plugin source other_atom opts control s = (s, err bad_arg)
  compile_nif plugin source mode opts control s =
      encoded_with mode plugin (compile tools plugin source (is_static mode) opts control s)

module _ (allocates : ℕ → Bool) (builders : Builders) {K M : Type 0}
    (loader : Loader builders.Guest builders.Limits K M)
    {p : Provider (World builders.Guest builders.Limits K M)}
    (linking : Linking (World builders.Guest builders.Limits K M) M p) (text : Text)
    (json : StateJson) where
  abbrev pub There : Type 0
  There = World builders.Guest builders.Limits K M

  -- The resource is new, and nobody holds its lock.
  abbrev pub new_slot : Execution p → Slot p
  new_slot e = record { execution = some e; is_locked = false }

  -- A failed start is a reply without a resource.
  unfoldable pub first_reply :
      Result Panic (Host K M × Result Failure (Execution p × Store builders.Guest builders.Limits))
      → Result Panic (Option (Slot p × There) × Result NifError Reply)
  first_reply (err panic) = err panic
  first_reply (ok (host, err (kind, message))) = ok (none, ok (replied_error kind message))
  first_reply (ok (host, ok (e, store))) =
      let (slot, w, reply) =
        advance_slot allocates text json (91 ∷ 93 ∷ []) (new_slot e) (enter store host.heap host) in
      ok (some (slot, w), reply)

  unfoldable pub run_start :
      List ℕ
      → List ℕ
      → Budgets
      → Control
      → Host K M
      → Result Panic (Option (Slot p × There) × Result NifError Reply)
  unfolding first_reply
  run_start wasm input opts control host =
      first_reply (start builders loader linking text wasm input opts control host)
