-- ===== src/Compiler/Source/Given.antt =====
-- Where the bytecode of `compile` (native/javex_nif/src/compiler.rs) comes from: the calls of the provider,
-- one after the other.
use javex.Base.{
  ℕ, ◌%◌, ◌≤◌, ◌≡◌, ap, List, message, length, take, drop, leb, leb→le, ◌==◌, if◌then◌else◌, ok,
  err, ensure, u32_mod, ok_or, ok_or-eq-ok, arith, ok-ne-err, ensure-eq-ok, some, Anyhow, Result,
  refl, sym,
}
use javex.Budgets.{Budgets}
use javex.Sandbox.{Text}
use javex.Execution.{Act, lift, proceed, Provider, from_le_bytes}
use javex.Execution.Advance.Laws.{proceed-eq-ok}
use javex.Compiler.Source.{Compiling, read_payload, compile_in, compile_source}

-- What touches nothing, and succeeds, leaves the world to what follows.
lift-eq-ok :
    {W A B : Type 0} (r : Result Anyhow A) (next : A → Act W B) {w w' : W} {b : B}
    → proceed (lift r w) next ≡ (w', ok b)
    → (a : A) × (r ≡ ok a) × (next a w ≡ (w', ok b))
lift-eq-ok (ok a) next e = (a, refl, e)
lift-eq-ok (err f) next e = absurd (ok-ne-err (sym (ap (λ r. r.1) e)))

module _ {W : Type 0} {p : Provider W} (compiling : Compiling W p) (text : Text)
    (opts : Budgets) where
  -- The payload of a record with the tag zero and a length within the budget.
  pub record IsPayload (memory : p.Memory) (fields : List ℕ) (w w' : W) (payload : List ℕ)
      : Type 0 where
    pub tag : from_le_bytes (take 4 fields) ≡ 0
    pub size : from_le_bytes (take 4 (drop 8 fields)) ≤ opts.max_module
    pub payload_read :
        p.read_memory memory
          (from_le_bytes (take 4 (drop 4 fields)))
          (from_le_bytes (take 4 (drop 8 fields)))
          w
        ≡ (w', ok payload)

  -- An instance of the provider got room, the source, and the call to compile it there, and answered with
  -- the place of a record.
  pub record IsGiven (source : List ℕ) (w w' : W) (payload : List ℕ) : Type 0 where
    pub linker : compiling.Linker
    pub instance_ : compiling.Instance
    pub memory : p.Memory
    pub realloc : p.Realloc
    pub compile : compiling.CompileSrc
    pub ptr : ℕ
    pub place : ℕ
    pub fields : List ℕ
    pub w1 : W
    pub w2 : W
    pub w3 : W
    pub w4 : W
    pub w5 : W
    pub w6 : W
    pub w7 : W
    pub linked : compiling.new_linker ≡ ok linker
    pub made : compiling.instantiate linker w ≡ (w1, ok instance_)
    pub exported : compiling.memory instance_ w1 ≡ some memory
    pub found : compiling.realloc_func instance_ w1 ≡ (w2, ok realloc)
    pub room : p.call_realloc realloc 0 0 1 (length source % u32_mod) w2 ≡ (w3, ok ptr)
    pub written : p.write_memory memory ptr source w3 ≡ (w4, ok tt)
    pub compiler : compiling.compile_func instance_ w4 ≡ (w5, ok compile)
    pub called : compiling.call_compile compile ptr (length source % u32_mod) w5 ≡ (w6, ok place)
    pub record_read : p.read_memory memory place 12 w6 ≡ (w7, ok fields)
    pub answered : IsPayload memory fields w7 w' payload

  read_payload-IsPayload :
      (memory : p.Memory) (fields : List ℕ) (w w' : W) (payload : List ℕ)
      → read_payload compiling text opts memory
          (from_le_bytes (take 4 fields))
          (from_le_bytes (take 4 (drop 4 fields)))
          (from_le_bytes (take 4 (drop 8 fields)))
          w
        ≡ (w', ok payload)
      → IsPayload memory fields w w' payload
  unfolding read_payload
  read_payload-IsPayload memory fields w w' payload h =
      let tag = from_le_bytes (take 4 fields) in
      let len = from_le_bytes (take 4 (drop 8 fields)) in
      let limit = if tag == 0 then opts.max_module else opts.max_stderr in
      let (_, short, h1) =
        lift-eq-ok (ensure (leb len limit) (message "compiler result limit exceeded")) _ h in
      let (w2, read, got, h2) =
        proceed-eq-ok (p.read_memory memory (from_le_bytes (take 4 (drop 4 fields))) len w) _ h1 in
      let (_, good, h3) = lift-eq-ok (ensure (tag == 0) (message (text.lossy read))) _ h2 in
      let is_bytecode = ensure-eq-ok (tag == 0) _ good in
      let bound = leb→le len limit (ensure-eq-ok (leb len limit) _ short) in
      record {
        tag = ground (arith, is_bytecode);
        size = ground (arith, is_bytecode, bound);
        payload_read = cc;
      }

  pub compile_source-IsGiven :
      (source : List ℕ) (w w' : W) (payload : List ℕ)
      → compile_source compiling text opts source w ≡ (w', ok payload)
      → IsGiven source w w' payload
  unfolding compile_source compile_in
  compile_source-IsGiven source w w' payload h =
      let size = length source % u32_mod in
      let (linker, linked, h1) = lift-eq-ok compiling.new_linker _ h in
      let (w1, instance_, made, h2) = proceed-eq-ok (compiling.instantiate linker w) _ h1 in
      let (memory, exported, h3) =
        lift-eq-ok
          (ok_or (compiling.memory instance_ w1) (message "provider has no exported memory")) _
          h2 in
      let (w2, realloc, found, h4) = proceed-eq-ok (compiling.realloc_func instance_ w1) _ h3 in
      let (w3, ptr, room, h5) = proceed-eq-ok (p.call_realloc realloc 0 0 1 size w2) _ h4 in
      let (w4, _, written, h6) = proceed-eq-ok (p.write_memory memory ptr source w3) _ h5 in
      let (w5, compile, compiler, h7) = proceed-eq-ok (compiling.compile_func instance_ w4) _ h6 in
      let (w6, place, called, h8) =
        proceed-eq-ok (compiling.call_compile compile ptr size w5) _ h7 in
      let (w7, fields, record_read, h9) = proceed-eq-ok (p.read_memory memory place 12 w6) _ h8 in
      record {
        linker = linker;
        instance_ = instance_;
        memory = memory;
        realloc = realloc;
        compile = compile;
        ptr = ptr;
        place = place;
        fields = fields;
        w1 = w1;
        w2 = w2;
        w3 = w3;
        w4 = w4;
        w5 = w5;
        w6 = w6;
        w7 = w7;
        linked = linked;
        made = made;
        exported = ok_or-eq-ok (compiling.memory instance_ w1) _ exported;
        found = found;
        room = room;
        written = written;
        compiler = compiler;
        called = called;
        record_read = record_read;
        answered = read_payload-IsPayload memory fields w7 w' payload h9;
      }
