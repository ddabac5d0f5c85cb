-- ===== src/Compiler/Wrapper/Assemble/Documented.antt =====
-- What `wrapper` of native/javex_nif/src/compiler.rs relies on of walrus.
use javex.Base.{ℕ, ◌≡◌, List, [], ◌∷◌, ◌++◌, String, ok}
use javex.Compiler.Wrapper.{Instruction}
use javex.Compiler.Wrapper.Assemble.{function, Import, Walrus}
use javex.Compiler.Wrapper.Assemble.Exports.{without, IsDistinct}

-- What the documentation of walrus and the validation of modules say.
pub record IsDocumented (walrus : Walrus) : Type 0 where
  pub imports : walrus.Module → List Import
  pub parsed :
      (plugin : List ℕ) (m : walrus.Module)
      → walrus.parse plugin ≡ ok m
      → IsDistinct (walrus.exports m)
  pub empty : (walrus.exports walrus.with_config ≡ []) × (imports walrus.with_config ≡ [])
  pub deletes :
      (m : walrus.Module) (id : ℕ)
      → (walrus.exports (walrus.delete_export m id) ≡ without id (walrus.exports m))
        × (imports (walrus.delete_export m id) ≡ imports m)
  pub types :
      (m : walrus.Module) (params results : ℕ)
      → (walrus.exports (walrus.add_type m params results).0 ≡ walrus.exports m)
        × (imports (walrus.add_type m params results).0 ≡ imports m)
  pub import_funcs :
      (m : walrus.Module) (namespace_ : List ℕ) (name_ : String) (t : walrus.Signature)
      → (walrus.exports (walrus.add_import_func m namespace_ name_ t).0 ≡ walrus.exports m)
        × (imports (walrus.add_import_func m namespace_ name_ t).0
            ≡ imports m ++ (namespace_, name_) ∷ [])
  pub import_memories :
      (m : walrus.Module) (namespace_ : List ℕ) (name_ : String) (pages : ℕ)
      → (walrus.exports (walrus.add_import_memory m namespace_ name_ pages).0 ≡ walrus.exports m)
        × (imports (walrus.add_import_memory m namespace_ name_ pages).0
            ≡ imports m ++ (namespace_, name_) ∷ [])
  pub passives :
      (m : walrus.Module) (bytes : List ℕ)
      → (walrus.exports (walrus.add_passive m bytes).0 ≡ walrus.exports m)
        × (imports (walrus.add_passive m bytes).0 ≡ imports m)
  pub locals :
      (m : walrus.Module)
      → (walrus.exports (walrus.add_local m).0 ≡ walrus.exports m)
        × (imports (walrus.add_local m).0 ≡ imports m)
  pub functions :
      (m : walrus.Module) (realloc invoke : walrus.Func) (memory_ : walrus.Memory)
      (data_ : walrus.Data) (ptr : walrus.Local) (code : List Instruction)
      → (walrus.exports (walrus.finish_function m realloc invoke memory_ data_ ptr code).0
          ≡ walrus.exports m)
        × (imports (walrus.finish_function m realloc invoke memory_ data_ ptr code).0 ≡ imports m)
  pub export_id : walrus.Module → ℕ
  pub adds :
      (m : walrus.Module) (name_ : String) (f : walrus.Func)
      → (walrus.exports (walrus.add_export m name_ f)
          ≡ walrus.exports m ++ record { id = export_id m; name = name_; item = function f } ∷ [])
        × (imports (walrus.add_export m name_ f) ≡ imports m)
