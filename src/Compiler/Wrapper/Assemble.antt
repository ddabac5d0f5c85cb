-- ===== src/Compiler/Wrapper/Assemble.antt =====
-- `wrapper` of native/javex_nif/src/compiler.rs: the module around the start function. Walrus, which
-- parses, changes and emits modules, is a parameter.
pub mod Exports
pub mod Documented
pub mod Start
pub mod Modules
use javex.Base.{
  ℕ, ◌≡◌, Bool, true, false, Option, none, some, List, [], ◌∷◌, String, str_eq, Anyhow, message,
  Result, ok, err, ◌>>=◌, if◌then◌else◌,
}
use javex.Compiler.Wrapper.{Instruction, i32_len, start_code}

-- `ExportItem`, of which `wrapper` looks for a memory.
pub data ExportItem (Func Memory : Type 0) : Type 0 where
  function : Func → ExportItem Func Memory
  memory : Memory → ExportItem Func Memory
  other : ExportItem Func Memory

pub record Export (Func Memory : Type 0) : Type 0 where
  pub id : ℕ
  pub name : String
  pub item : ExportItem Func Memory

-- What is imported: the bytes of the namespace, and the name.
abbrev pub Import : Type 0
Import = List ℕ × String

-- Types are added by the number of their parameters and results, all of them `i32`. A function is
-- finished from its instructions and what they name: `realloc`, `invoke`, `memory`, `data` and `ptr`.
pub record Walrus : Type 1 where
  pub Module : Type 0
  pub Func : Type 0
  pub Memory : Type 0
  pub Data : Type 0
  pub Local : Type 0
  pub Signature : Type 0
  pub parse : List ℕ → Result Anyhow Module
  pub with_config : Module
  pub exports : Module → List (Export Func Memory)
  pub get_func : Module → String → Result Anyhow Func
  pub delete_export : Module → ℕ → Module
  pub add_type : Module → ℕ → ℕ → Module × Signature
  pub add_import_func : Module → List ℕ → String → Signature → Module × Func
  pub add_import_memory : Module → List ℕ → String → ℕ → Module × Memory
  pub add_passive : Module → List ℕ → Module × Data
  pub add_local : Module → Module × Local
  pub finish_function :
      Module → Func → Func → Memory → Data → Local → List Instruction → Module × Func
  pub add_export : Module → String → Func → Module
  pub emit_wasm : Module → List ℕ

module _ (walrus : Walrus) where
  open walrus use {Module, Func, Memory}

  -- `module.exports.iter().find(|export| export.name == name)`
  unfoldable pub find_export : String → List (Export Func Memory) → Option (Export Func Memory)
  find_export name [] = none
  find_export name (x ∷ exports) = if str_eq x.name name then some x else find_export name exports

  -- The `match` on what is exported as the memory.
  unfoldable pub exported_memory : Option (Export Func Memory) → Result Anyhow Memory
  exported_memory none = err (message "provider has no exported memory")
  exported_memory (some x) = elim x.item [
    | function f ↦ err (message "provider has no exported memory")
    | memory m ↦ ok m
    | other ↦ err (message "provider has no exported memory")
  ]

  abbrev pub without_start : Module → Option (Export Func Memory) → Module
  without_start m none = m
  without_start m (some x) = walrus.delete_export m x.id

  -- The two branches: the embedded provider without its own start function, or imports from a
  -- provider of this namespace.
  unfoldable pub prepare : List ℕ → List ℕ → Bool → Result Anyhow (Module × Func × Func × Memory)
  unfolding find_export exported_memory
  prepare plugin namespace true = do
    m ← walrus.parse plugin
    realloc ← walrus.get_func m "cabi_realloc"
    invoke ← walrus.get_func m "invoke"
    memory_ ← exported_memory (find_export "memory" (walrus.exports m))
    ok (without_start m (find_export "_start" (walrus.exports m)), realloc, invoke, memory_)
  prepare plugin namespace false =
      let (m1, realloc_type) = walrus.add_type walrus.with_config 4 1 in
      let (m2, realloc) = walrus.add_import_func m1 namespace "cabi_realloc" realloc_type in
      let (m3, invoke_type) = walrus.add_type m2 5 0 in
      let (m4, invoke) = walrus.add_import_func m3 namespace "invoke" invoke_type in
      let (m5, memory_) = walrus.add_import_memory m4 namespace "memory" 0 in
      ok (m5, realloc, invoke, memory_)

  -- The rest of `wrapper`.
  unfoldable pub export_start : List ℕ → Module × Func × Func × Memory → Result Anyhow (List ℕ)
  export_start bytecode (m, realloc, invoke, memory_) = do
    len ← i32_len bytecode
    let (m1, data_) = walrus.add_passive m bytecode
    let (m2, ptr) = walrus.add_local m1
    let (m3, start) = walrus.finish_function m2 realloc invoke memory_ data_ ptr (start_code len)
    ok (walrus.emit_wasm (walrus.add_export m3 "_start" start))

  unfoldable pub wrapper : List ℕ → List ℕ → List ℕ → Bool → Result Anyhow (List ℕ)
  unfolding prepare export_start
  wrapper plugin namespace bytecode static_mode = do
    prepared ← prepare plugin namespace static_mode
    export_start bytecode prepared
