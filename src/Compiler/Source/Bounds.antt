-- ===== src/Compiler/Source/Bounds.antt =====
-- The bytecode that `compile` of native/javex_nif/src/compiler.rs reads back keeps to the budget.
use javex.Base.{
  ℕ, ◌%◌, ◌≤◌, ◌≡◌, ap, List, message, length, take, drop, leb, leb→le, ◌==◌, if◌then◌else◌, ok,
  ensure, u32_mod, ok_or, arith, ok-injective, ensure-eq-ok,
}
use javex.Budgets.{Budgets}
use javex.Sandbox.{Text}
use javex.Execution.{lift, Provider, from_le_bytes}
use javex.Execution.Advance.Laws.{ReadsWhole, proceed-eq-ok}
use javex.Compiler.Source.{Compiling, read_payload, compile_in, compile_source}

module _ {W : Type 0} {p : Provider W} (compiling : Compiling W p) (text : Text) (opts : Budgets)
    (whole : ReadsWhole p) where
  payload_bound :
      (memory : p.Memory) (tag ptr len : ℕ) (w w' : W) (payload : List ℕ)
      → read_payload compiling text opts memory tag ptr len w ≡ (w', ok payload)
      → length payload ≤ opts.max_module
  unfolding read_payload
  payload_bound memory tag ptr len w w' payload h =
      let limit = if tag == 0 then opts.max_module else opts.max_stderr in
      let (w1, _, short, h1) =
        proceed-eq-ok (lift (ensure (leb len limit) (message "compiler result limit exceeded")) w) _
          h in
      let (w2, read, found, h2) = proceed-eq-ok (p.read_memory memory ptr len w1) _ h1 in
      let (w3, _, good, h3) =
        proceed-eq-ok (lift (ensure (tag == 0) (message (text.lossy read))) w2) _ h2 in
      let size = whole memory ptr len w1 w2 read found in
      let same : length read ≡ length payload = ap length (ok-injective (ap (λ r. r.1) h3)) in
      let is_bytecode = ensure-eq-ok (tag == 0) _ (ap (λ r. r.1) good) in
      let bound = leb→le len limit (ensure-eq-ok (leb len limit) _ (ap (λ r. r.1) short)) in
      let limit_is : limit ≡ opts.max_module = ground (arith, is_bytecode) in
      omega (arith, size, same, bound, limit_is)

  compile_in_bound :
      (instance_ : compiling.Instance) (source : List ℕ) (w w' : W) (payload : List ℕ)
      → compile_in compiling text opts instance_ source w ≡ (w', ok payload)
      → length payload ≤ opts.max_module
  unfolding compile_in
  compile_in_bound instance_ source w w' payload h =
      let size = length source % u32_mod in
      let (w1, memory, _, h1) =
        proceed-eq-ok
          (w, ok_or (compiling.memory instance_ w) (message "provider has no exported memory")) _
          h in
      let (w2, realloc, _, h2) = proceed-eq-ok (compiling.realloc_func instance_ w1) _ h1 in
      let (w3, ptr, _, h3) = proceed-eq-ok (p.call_realloc realloc 0 0 1 size w2) _ h2 in
      let (w4, _, _, h4) = proceed-eq-ok (p.write_memory memory ptr source w3) _ h3 in
      let (w5, compile, _, h5) = proceed-eq-ok (compiling.compile_func instance_ w4) _ h4 in
      let (w6, place, _, h6) = proceed-eq-ok (compiling.call_compile compile ptr size w5) _ h5 in
      let (w7, fields, _, h7) = proceed-eq-ok (p.read_memory memory place 12 w6) _ h6 in
      payload_bound memory (from_le_bytes (take 4 fields)) (from_le_bytes (take 4 (drop 4 fields)))
        (from_le_bytes (take 4 (drop 8 fields))) w7 w' payload h7

  -- If reads of the memory are whole, bytecode that the closure returns is no longer than a module may
  -- be, whatever the compiler in the sandbox does.
  pub compile_source_bound :
      (source : List ℕ) (w w' : W) (payload : List ℕ)
      → compile_source compiling text opts source w ≡ (w', ok payload)
      → length payload ≤ opts.max_module
  unfolding compile_source
  compile_source_bound source w w' payload h =
      let (w1, linker, _, h1) = proceed-eq-ok (lift compiling.new_linker w) _ h in
      let (w2, instance_, _, h2) = proceed-eq-ok (compiling.instantiate linker w1) _ h1 in
      compile_in_bound instance_ source w2 w' payload h2
