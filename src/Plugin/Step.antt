-- ===== src/Plugin/Step.antt =====
-- The exported functions of native/javex_plugin/src/lib.rs, but for `cabi_realloc`. The thread-locals are
-- the state of the instance. Where the buffer of a vector lies is a parameter.
pub mod Life
pub mod Says
pub mod Reports
pub mod Sound
pub mod Ended
pub mod Output
pub mod Host
use javex.Base.{
  ℕ, ◌+◌, ◌≤◌, Bool, true, false, not, Option, none, some, List, [], ◌∷◌, ◌++◌, String, into_bytes,
  from_utf8, Anyhow, message, Result, ok, err, map_err, ◌>>=◌, length, ◌==◌, if◌then◌else◌,
}
use javex.Plugin.{Ends, returns, panics, aborts}
use javex.Plugin.Memory.{Bytes, read, write, to_le_bytes}
use javex.Plugin.Settle.{QuickJs, settle}
use javex.Execution.Advance.{StateJson}

-- Where `RECORD` lies, where the buffer of a new vector lies (the one that it replaces is free by
-- then; the allocator may write to the memory for both), and the text of an error.
pub record Places : Type 1 where
  pub Heap : Type 0
  pub record_at : ℕ
  pub place : Heap → Bytes → ℕ → Heap × Bytes × ℕ
  pub display : Anyhow → String

module _ (js : QuickJs) (places : Places) (json : StateJson) where
  open js use {Context, Promise, Function, Error}

  -- `RUNTIME`, `ROOT`, `BRIDGE`, and the memory, with `OUTPUT`, `RECORD` and the blocks of the host in it.
  -- What QuickJS keeps for itself is part of its context.
  pub record Instance : Type 0 where
    pub context : Context
    pub root : Option Promise
    pub bridge : Option Function
    pub memory : Bytes
    pub heap : places.Heap

  -- `output`: the three numbers of the record, and where it lies.
  unfoldable pub output : ℕ → List ℕ → Instance → Instance × ℕ
  output tag bytes i =
      let (heap, memory, ptr) = places.place i.heap i.memory (length bytes) in
      let fields = to_le_bytes tag ++ (to_le_bytes ptr ++ to_le_bytes (length bytes)) in
      (
        record i { heap = heap; memory = write (write memory ptr bytes) places.record_at fields },
        places.record_at,
      )

  -- The last `match` of `compile` and of `step`.
  unfoldable pub answer : Instance → Result Anyhow (List ℕ) → Ends Instance ℕ
  unfolding output
  answer i (ok bytes) = let (i', at) = output 0 bytes i in returns i' at
  answer i (err e) = let (i', at) = output 1 (into_bytes (places.display e)) i in returns i' at

  unfoldable pub compile : ℕ → ℕ → Instance → Ends Instance ℕ
  unfolding answer
  compile ptr len i =
      let source = read i.memory ptr len in
      elim (from_utf8 source) [
        | err e ↦ answer i (err e)
        | ok _ ↦
            let (context, result) = js.compile_to_bytecode i.context source in
            answer (record i { context = context }) result
      ]

  unfoldable pub invoke : ℕ → ℕ → ℕ → Instance → Ends Instance (Unit {0})
  invoke ptr len named i =
      if named == 0
      then elim (js.eval_module i.context (read i.memory ptr len)).1 [
        | err e ↦ aborts (js.from_js_error (js.eval_module i.context (read i.memory ptr len)).0 e)
        | ok root ↦
            returns
              (record i {
                context = (js.eval_module i.context (read i.memory ptr len)).0;
                root = some root;
              })
              tt
      ]
      else panics

  unfoldable pub configure : ℕ → ℕ → ℕ → Instance → Ends Instance (Unit {0})
  configure calls concurrent input i =
      let (context, evaluated) = js.eval_bridge i.context calls concurrent input in
      elim evaluated [
        | err e ↦ aborts (js.from_js_error context e)
        | ok bridge ↦ returns (record i { context = context; bridge = some bridge }) tt
      ]

  -- What `step` answers before there is a root.
  abbrev pub done_state : String
  done_state = "{\"done\":true,\"fatal\":false,\"requests\":[]}"

  -- The end of the closure: a rejection is the answer, unless a quota was exceeded.
  unfoldable pub judge :
      Context → List ℕ → Bool → Option (Result Error (Unit {0})) → Result Anyhow (List ℕ)
  judge ctx state true outcome = ok state
  judge ctx state false (some (err e)) = err (js.from_js_error ctx e)
  judge ctx state false (some (ok _)) = ok state
  judge ctx state false none = ok state

  -- The state that the bridge reports, read for `fatal`; one that is no JSON is a panic.
  unfoldable pub read_state :
      Instance
      → Option (Result Error (Unit {0}))
      → List ℕ
      → Result Anyhow json.Value
      → Ends Instance ℕ
  unfolding answer judge
  read_state i outcome state (err e) = panics
  read_state i outcome state (ok v) =
      answer i (judge i.context state (json.is_true v "fatal") outcome)

  abbrev pub mode : Option (Result Error (Unit {0})) → ℕ
  mode none = 1
  mode (some r) = 2

  unfoldable pub report : Function → Instance → Option (Result Error (Unit {0})) → Ends Instance ℕ
  unfolding read_state
  report bridge i outcome =
      let (context, called) = js.call_bridge i.context bridge (into_bytes "[]") (mode outcome) in
      let i' = record i { context = context } in
      elim called [
        | err e ↦ answer i' (err (js.from_js_error context e))
        | ok state ↦ read_state i' outcome state (json.from_slice state)
      ]

  -- The second half of the closure of `step`, with so many jobs at most.
  unfoldable pub drain : ℕ → Function → Instance → Option (Ends Instance ℕ)
  unfolding report
  drain n bridge i = elim i.root [
    | none ↦ some (answer i (ok (into_bytes done_state)))
    | some root ↦ elim (settle js root n i.context) [
      | none ↦ none
      | some (context, outcome) ↦ some (report bridge (record i { context = context }) outcome)
    ]
  ]

  -- The first half: the completions are delivered.
  unfoldable pub deliver : ℕ → List ℕ → Instance → Option (Ends Instance ℕ)
  unfolding drain
  deliver n completions i = elim i.bridge [
    | none ↦ some panics
    | some bridge ↦
        let (context, called) = js.call_bridge i.context bridge completions 0 in
        elim called [
          | err e ↦
              some (answer (record i { context = context }) (err (js.from_js_error context e)))
          | ok _ ↦ drain n bridge (record i { context = context })
        ]
  ]

  -- `none`: the jobs did not come to an end.
  unfoldable pub step : ℕ → ℕ → ℕ → Instance → Option (Ends Instance ℕ)
  unfolding deliver
  step n ptr len i =
      let completions = read i.memory ptr len in
      elim (from_utf8 completions) [
        | err e ↦ some (answer i (err e))
        | ok _ ↦ deliver n completions i
      ]
