-- ===== src/Compiler/Wrapper/Assemble/Start.antt =====
-- The start function that `wrapper` of native/javex_nif/src/compiler.rs adds to a module.
use javex.Base.{ℕ, ◌≡◌, refl, ap, ◌∙◌, List, [], ◌∷◌, ◌++◌, ok, ok-injective, >>=-eq-ok}
use javex.Compiler.Wrapper.{i32_len, start_code}
use javex.Compiler.Wrapper.Assemble.{function, Export, Walrus, export_start}
use javex.Compiler.Wrapper.Assemble.Documented.{IsDocumented}

module _ (walrus : Walrus) where
  open walrus use {Module, Func, Memory}

  -- The function that was finished from the code for this bytecode, over these two functions and this
  -- memory, with the bytecode as passive data.
  pub record IsStart (realloc invoke start : Func) (memory_ : Memory) (bytecode : List ℕ)
      : Type 0 where
    pub into : Module
    pub at : Module
    pub ptr : walrus.Local
    pub len : ℕ
    pub sized : i32_len bytecode ≡ ok len
    pub finished :
        (walrus.finish_function at realloc invoke memory_
          (walrus.add_passive into bytecode).1
          ptr
          (start_code len)).1
        ≡ start

module _ (walrus : Walrus) (documented : IsDocumented walrus) where
  open walrus use {Module, Func, Memory}
  open documented use {imports}

  -- A module with an export of the start function more than another has.
  abbrev pub StartsLike : List ℕ → Func → Func → Memory → Module → Module → Type 0
  StartsLike bytecode realloc invoke memory_ before after =
      (start : Func) × (id : ℕ) × IsStart walrus realloc invoke start memory_ bytecode
      × (walrus.exports after
          ≡ walrus.exports before
            ++ record { id = id; name = "_start"; item = function start } ∷ [])
      × (imports after ≡ imports before)

  pub export_start-StartsLike :
      (bytecode wasm : List ℕ) (m : Module) (realloc invoke : Func) (memory_ : Memory)
      → export_start walrus bytecode (m, realloc, invoke, memory_) ≡ ok wasm
      → (after : Module) × (walrus.emit_wasm after ≡ wasm)
        × StartsLike bytecode realloc invoke memory_ m after
  unfolding export_start
  export_start-StartsLike bytecode wasm m realloc invoke memory_ h =
      let (len, sized, h1) = >>=-eq-ok (i32_len bytecode) _ h in
      let (m1, data_) = walrus.add_passive m bytecode in
      let (m2, ptr) = walrus.add_local m1 in
      let (m3, start) =
        walrus.finish_function m2 realloc invoke memory_ data_ ptr (start_code len) in
      let first = documented.passives m bytecode in
      let second = documented.locals m1 in
      let third = documented.functions m2 realloc invoke memory_ data_ ptr (start_code len) in
      let last = documented.adds m3 "_start" start in
      let x : Export Func Memory = record {
        id = documented.export_id m3;
        name = "_start";
        item = function start;
      } in
      (
        walrus.add_export m3 "_start" start,
        ok-injective h1,
        (
          start,
          documented.export_id m3,
          record { into = m; at = m2; ptr = ptr; len = len; sized = sized; finished = refl },
          last.0 ∙ ap (λ xs. xs ++ x ∷ []) (third.0 ∙ second.0 ∙ first.0),
          last.1 ∙ third.1 ∙ second.1 ∙ first.1,
        ),
      )
