-- ===== src/Compiler/Wrapper/Assemble/Modules.antt =====
-- What the module that `wrapper` of native/javex_nif/src/compiler.rs emits exports and imports.
use javex.Base.{
  ℕ, ◌≡◌, refl, ap, ◌∙◌, true, false, Option, none, some, List, [], ◌∷◌, ◌++◌, append-nil, String,
  str_eq, ok, err, message, sym, arith, inl, inr, Option-cases, ok-injective, >>=-eq-ok,
}
use javex.Compiler.Wrapper.Assemble.{
  ExportItem, function, memory, other, Export, Walrus, find_export, exported_memory, without_start,
  prepare, export_start, wrapper,
}
use javex.Compiler.Wrapper.Assemble.Exports.{
  named, entries, named-append, without_found, not_found, found_named,
}
use javex.Compiler.Wrapper.Assemble.Documented.{IsDocumented}
use javex.Compiler.Wrapper.Assemble.Start.{IsStart, export_start-StartsLike}

module _ (walrus : Walrus) (documented : IsDocumented walrus) where
  open walrus use {Module, Func, Memory}
  open documented use {imports}

  -- The function that was added as an import of this name.
  abbrev pub IsImported : List ℕ → String → Func → Type 0
  IsImported namespace_ name f =
      (before : Module) × (t : walrus.Signature) × ((walrus.add_import_func before namespace_ name
          t).1
        ≡ f)

  -- A dynamic module that is built imports the two functions and the memory of a provider of the
  -- namespace, in this order and nothing else, and exports nothing but a start function, the one that
  -- was made from the code for the bytecode, over the two imported functions.
  pub wrapper-dynamic :
      (plugin bytecode wasm namespace_ : List ℕ)
      → wrapper walrus plugin namespace_ bytecode false ≡ ok wasm
      → (m : Module) × (realloc invoke start : Func) × (memory_ : Memory) × (walrus.emit_wasm m
          ≡ wasm)
        × IsImported namespace_ "cabi_realloc" realloc
        × IsImported namespace_ "invoke" invoke
        × IsStart walrus realloc invoke start memory_ bytecode
        × (imports m
            ≡ (namespace_, "cabi_realloc") ∷ (namespace_, "invoke") ∷ (namespace_, "memory") ∷ [])
        × (entries (walrus.exports m) ≡ ("_start", function start) ∷ [])
  unfolding wrapper prepare
  wrapper-dynamic plugin bytecode wasm namespace_ h =
      let (m1, realloc_type) = walrus.add_type walrus.with_config 4 1 in
      let (m2, realloc) = walrus.add_import_func m1 namespace_ "cabi_realloc" realloc_type in
      let (m3, invoke_type) = walrus.add_type m2 5 0 in
      let (m4, invoke) = walrus.add_import_func m3 namespace_ "invoke" invoke_type in
      let (m5, memory_) = walrus.add_import_memory m4 namespace_ "memory" 0 in
      let (m, emitted, (start, id, is_start, exported, imported)) =
        export_start-StartsLike walrus documented bytecode wasm m5 realloc invoke memory_ h in
      let l1 = documented.types walrus.with_config 4 1 in
      let l2 = documented.import_funcs m1 namespace_ "cabi_realloc" realloc_type in
      let l3 = documented.types m2 5 0 in
      let l4 = documented.import_funcs m3 namespace_ "invoke" invoke_type in
      let l5 = documented.import_memories m4 namespace_ "memory" 0 in
      let none_before : walrus.exports m5 ≡ [] =
        l5.0 ∙ l4.0 ∙ l3.0 ∙ l2.0 ∙ l1.0 ∙ documented.empty.0 in
      let first =
        l3.1
        ∙ l2.1
        ∙ ap (λ xs. xs ++ (namespace_, "cabi_realloc") ∷ []) (l1.1 ∙ documented.empty.1) in
      let two = l4.1 ∙ ap (λ xs. xs ++ (namespace_, "invoke") ∷ []) first in
      (
        m,
        realloc,
        invoke,
        start,
        memory_,
        emitted,
        (m1, realloc_type, refl),
        (m3, invoke_type, refl),
        is_start,
        imported ∙ l5.1 ∙ ap (λ xs. xs ++ (namespace_, "memory") ∷ []) two,
        ap entries exported
            ∙ ap
                (λ xs.
                  entries (xs ++ record { id = id; name = "_start"; item = function start } ∷ []))
                none_before,
      )

  -- The provider without its own start function, if it has one.
  without_start-named :
      (plugin : List ℕ) (m : Module) (o : Option (Export Func Memory))
      → walrus.parse plugin ≡ ok m
      → find_export walrus "_start" (walrus.exports m) ≡ o
      → (named "_start" (walrus.exports (without_start walrus m o)) ≡ [])
        × ((n : String)
            → str_eq "_start" n ≡ false
            → named n (walrus.exports (without_start walrus m o)) ≡ named n (walrus.exports m))
        × (imports (without_start walrus m o) ≡ imports m)
  without_start-named plugin m none parsed h =
      (not_found walrus "_start" (walrus.exports m) h, λ n other_name. refl, refl)
  without_start-named plugin m (some x) parsed h =
      let (gone, kept) =
        without_found walrus "_start" (walrus.exports m) x (documented.parsed plugin m parsed) h in
      let deleted = documented.deletes m x.id in
      (
        ap (named "_start") deleted.0 ∙ gone,
        λ n other_name. ap (named n) deleted.0 ∙ kept n other_name,
        deleted.1,
      )

  -- The memory that `wrapper` finds is the one export of that name.
  memory_named :
      (plugin : List ℕ) (m : Module) (memory_ : Memory)
      → walrus.parse plugin ≡ ok m
      → exported_memory walrus (find_export walrus "memory" (walrus.exports m)) ≡ ok memory_
      → named "memory" (walrus.exports m) ≡ memory memory_ ∷ []
  unfolding exported_memory
  memory_named plugin m memory_ parsed h =
      elim (Option-cases (find_export walrus "memory" (walrus.exports m))) [
        | inl nothing ↦ absurd (ground (arith, h, nothing))
        | inr (x, found) ↦
            found_named walrus "memory" (walrus.exports m) x (documented.parsed plugin m parsed)
              found
            ∙ ap (λ y. y ∷ []) (is_memory x.item (sym (ap (exported_memory walrus) found) ∙ h))
      ]
    where
      is_memory :
          (item : ExportItem Func Memory)
          → elim item [
            | function f ↦ err (message "provider has no exported memory")
            | memory m ↦ ok m
            | other ↦ err (message "provider has no exported memory")
          ]
            ≡ ok memory_
          → item ≡ memory memory_
      is_memory (function f) e = cc
      is_memory (memory m) e = ap (λ y. memory y) (ok-injective e)
      is_memory other e = cc

  -- A static module that is built is a plugin, whose names and ids of exports are distinct, with its
  -- imports, with one start function, even if the plugin has its own, and with the plugin's exports
  -- under every other name. The start function is the one that was made from the code for the bytecode,
  -- over the functions that the plugin has under the names `cabi_realloc` and `invoke`, and a memory
  -- that it exports.
  pub wrapper-static :
      (plugin bytecode wasm namespace_ : List ℕ)
      → wrapper walrus plugin namespace_ bytecode true ≡ ok wasm
      → (before m : Module) × (realloc invoke start : Func) × (memory_ : Memory) × (walrus.parse
            plugin
          ≡ ok before)
        × (walrus.emit_wasm m ≡ wasm)
        × (walrus.get_func before "cabi_realloc" ≡ ok realloc)
        × (walrus.get_func before "invoke" ≡ ok invoke)
        × (named "memory" (walrus.exports before) ≡ memory memory_ ∷ [])
        × IsStart walrus realloc invoke start memory_ bytecode
        × (named "_start" (walrus.exports m) ≡ function start ∷ [])
        × ((n : String)
            → str_eq "_start" n ≡ false
            → named n (walrus.exports m) ≡ named n (walrus.exports before))
        × (imports m ≡ imports before)
  unfolding wrapper prepare
  wrapper-static plugin bytecode wasm namespace_ h =
      let (prepared, found, h1) = >>=-eq-ok (prepare walrus plugin namespace_ true) _ h in
      let (before, parsed, h2) = >>=-eq-ok (walrus.parse plugin) _ found in
      let (realloc, has_realloc, h3) = >>=-eq-ok (walrus.get_func before "cabi_realloc") _ h2 in
      let (invoke, has_invoke, h4) = >>=-eq-ok (walrus.get_func before "invoke") _ h3 in
      let (memory_, has_memory, h5) =
        >>=-eq-ok (exported_memory walrus (find_export walrus "memory" (walrus.exports before))) _
          h4 in
      let o = find_export walrus "_start" (walrus.exports before) in
      let (m, emitted, (start, id, is_start, exported, imported)) =
        export_start-StartsLike walrus documented bytecode wasm (without_start walrus before o)
          realloc invoke memory_ (ap (export_start walrus bytecode) (ok-injective h5) ∙ h1) in
      let (gone, kept, same) = without_start-named plugin before o parsed refl in
      let x : Export Func Memory = record { id = id; name = "_start"; item = function start } in
      let split : (n : String)
          → named n (walrus.exports m)
            ≡ named n (walrus.exports (without_start walrus before o)) ++ named n (x ∷ []) =
        λ n.
          ap (named n) exported
          ∙ named-append n (walrus.exports (without_start walrus before o)) (x ∷ []) in
      (
        before,
        m,
        realloc,
        invoke,
        start,
        memory_,
        parsed,
        emitted,
        has_realloc,
        has_invoke,
        memory_named plugin before memory_ parsed has_memory,
        is_start,
        split "_start" ∙ ap (λ ys. ys ++ function start ∷ []) gone,
        λ n other_name.
            split n
            ∙ ap (λ ys. named n (walrus.exports (without_start walrus before o)) ++ ys)
                (named_other n id start other_name)
            ∙ append-nil (named n (walrus.exports (without_start walrus before o)))
            ∙ kept n other_name,
        imported ∙ same,
      )
    where
      named_other :
          (n : String) (id : ℕ) (start : Func)
          → str_eq "_start" n ≡ false
          → ◌≡◌ {A = List (ExportItem Func Memory)}
              (named n (record { id = id; name = "_start"; item = function start } ∷ []))
              []
      named_other n id start other_name = rw other_name
