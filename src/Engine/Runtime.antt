-- ===== src/Engine/Runtime.antt =====
-- `build_runtime` of native/javex_nif/src/sandbox.rs: a plugin becomes a runtime with an empty cache.
pub mod Laws
use javex.Base.{
  ℕ, ◌*◌, ◌≡◌, Bool, true, false, Option, none, some, List, [], ◌∷◌, String, str_eq, Anyhow,
  message, Result, ok, err, length, leb, if◌then◌else◌, ensure, ◌>>=◌, ◌>>◌, ok_or, from_utf8,
}
use javex.Cache.{CacheOptions, Cache, empty}
use javex.Engine.{Threads, Process, initialize_engine}

-- `wasmparser::Payload`, of which custom sections are looked at.
pub data Payload : Type 0 where
  custom_section : String → List ℕ → Payload
  other_payload : Payload

-- `Module::from_binary`, and `Parser::parse_all` with the errors on the way.
pub record Parsers (Engine M : Type 0) : Type 0 where
  pub from_binary : Engine → List ℕ → Result Anyhow M
  pub parse_all : List ℕ → List (Result Anyhow Payload)

-- `Runtime`; the namespace is the bytes of its text.
pub record Runtime (Engine K M : Type 0) : Type 0 where
  pub engine : Engine
  pub plugin : M
  pub namespace : List ℕ
  pub cache : Cache K M

-- `str::from_utf8`, with the bytes as the text
unfoldable pub text_of : List ℕ → Result Anyhow (List ℕ)
text_of data_ = do from_utf8 data_; ok data_

-- The closure of `find_map`
unfoldable pub namespace_in : Result Anyhow Payload → Option (Result Anyhow (List ℕ))
unfolding text_of
namespace_in (err e) = none
namespace_in (ok other_payload) = none
namespace_in (ok (custom_section name data_)) =
    if str_eq name "import_namespace" then some (text_of data_) else none

unfoldable pub find_namespace : List (Result Anyhow Payload) → Option (Result Anyhow (List ℕ))
unfolding namespace_in
find_namespace [] = none
find_namespace (section ∷ sections) = elim (namespace_in section) [
  | none ↦ find_namespace sections
  | some found ↦ some found
]

abbrev pub max_provider : ℕ
max_provider = 8 * 1024 * 1024

module _ {Engine K M : Type 0} (threads : Threads Engine) (parsers : Parsers Engine M) where
  open parsers use {from_binary, parse_all}

  -- From the engine on.
  unfoldable pub load_plugin : List ℕ → CacheOptions → Engine → Result Anyhow (Runtime Engine K M)
  unfolding find_namespace
  load_plugin bytes limits engine = do
    plugin ← from_binary engine bytes
    found ← ok_or (find_namespace (parse_all bytes)) (message "plugin is missing import_namespace")
    namespace ← found
    ok (record { engine = engine; plugin = plugin; namespace = namespace; cache = empty limits })

  unfoldable pub build_runtime :
      List ℕ → CacheOptions → Process Engine → Process Engine × Result Anyhow (Runtime Engine K M)
  unfolding load_plugin
  build_runtime bytes limits p =
      if leb (length bytes) max_provider
      then (let (p', engine) = initialize_engine threads false p in
          (p', engine >>= load_plugin bytes limits))
      else (p, err (message "provider exceeds 8 MiB"))
