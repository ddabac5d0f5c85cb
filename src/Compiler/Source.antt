-- ===== src/Compiler/Source.antt =====
-- What `compile` of native/javex_nif/src/compiler.rs has the provider do in the sandbox: the source is
-- written to its memory, compiled there, and the bytecode read back.
pub mod Bounds
pub mod Given
use javex.Base.{
  ℕ, ◌%◌, Bool, true, false, List, String, ◌&&◌, Anyhow, message, length, take, drop, leb, ◌==◌,
  if◌then◌else◌, from_utf8, Result, ok, err, ensure, u32_mod, Option, ok_or,
}
use javex.Budgets.{Budgets}
use javex.Sandbox.{Text}
use javex.Execution.{Act, proceed, ◌>>=◌, ◌>>◌, lift, Provider, from_le_bytes}

-- The linker of `Sandbox::linker`, the instance of the provider that it makes, and its exports, with
-- `compile-src`.
pub record Compiling (W : Type 0) (p : Provider W) : Type 1 where
  pub Linker : Type 0
  pub Instance : Type 0
  pub CompileSrc : Type 0
  pub new_linker : Result Anyhow Linker
  pub instantiate : Linker → Act W Instance
  pub memory : Instance → W → Option p.Memory
  pub realloc_func : Instance → Act W p.Realloc
  pub compile_func : Instance → Act W CompileSrc
  pub call_compile : CompileSrc → ℕ → ℕ → Act W ℕ

-- The first check of `compile`; the source must be UTF-8 too.
unfoldable pub check_source : Budgets → List ℕ → Result Anyhow (Unit {0})
check_source opts source =
    if leb (length source) opts.max_input && leb (length source) 4_294_967_295
    then from_utf8 source
    else err (message "source limit exceeded")

module _ {W : Type 0} {p : Provider W} (compiling : Compiling W p) (text : Text)
    (opts : Budgets) where
  -- The end of the closure: a payload with another tag than zero is an error of the compiler.
  unfoldable pub read_payload : p.Memory → ℕ → ℕ → ℕ → Act W (List ℕ)
  read_payload memory tag ptr len = do
    lift (
        ensure (leb len (if tag == 0 then opts.max_module else opts.max_stderr))
          (message "compiler result limit exceeded"))
    payload ← p.read_memory memory ptr len
    lift (ensure (tag == 0) (message (text.lossy payload)))
    lift (ok payload)

  -- The closure, from the memory of the instance on.
  unfoldable pub compile_in : compiling.Instance → List ℕ → Act W (List ℕ)
  unfolding read_payload
  compile_in instance_ source = do
    memory ←
        λ w. (w, ok_or (compiling.memory instance_ w) (message "provider has no exported memory"))
    realloc ← compiling.realloc_func instance_
    ptr ← p.call_realloc realloc 0 0 1 (length source % u32_mod)
    p.write_memory memory ptr source
    compile ← compiling.compile_func instance_
    place ← compiling.call_compile compile ptr (length source % u32_mod)
    fields ← p.read_memory memory place 12
    read_payload memory (from_le_bytes (take 4 fields)) (from_le_bytes (take 4 (drop 4 fields)))
        (from_le_bytes (take 4 (drop 8 fields)))

  unfoldable pub compile_source : List ℕ → Act W (List ℕ)
  unfolding compile_in
  compile_source source = do
    linker ← lift compiling.new_linker
    instance_ ← compiling.instantiate linker
    compile_in instance_ source
