-- ===== src/Plugin/Step/Host.antt =====
-- The provider of native/javex_plugin/src/lib.rs as `Execution::advance` of
-- native/javex_nif/src/sandbox.rs calls it: what the host reads is what a step answered.
pub mod Heard
use javex.Base.{
  ℕ, ◌+◌, leb, length, Bool, true, false, Option, none, some, List, String, Anyhow, message, Trap,
  trapped, Result, ok, err, if◌then◌else◌,
}
use javex.Execution.{Act, Provider}
use javex.Execution.Advance.{StateJson}
use javex.Plugin.{Ends, returns, panics, aborts}
use javex.Plugin.Memory.{Bytes, read, write}
use javex.Plugin.Settle.{QuickJs}
use javex.Plugin.Realloc.{Allocator, realloc}
use javex.Plugin.Step.{Places, Instance, step}
use javex.Sandbox.{World}

-- What the guest is made of, with the size of its memory and the jobs that its fuel is enough for,
-- and the types of the host's own state.
pub record Embedding : Type 1 where
  pub js : QuickJs
  pub places : Places
  pub json : StateJson
  pub alloc : places.Heap × Bytes → ℕ → ℕ → (places.Heap × Bytes) × ℕ
  pub dealloc : places.Heap × Bytes → ℕ → ℕ → ℕ → places.Heap × Bytes
  pub memory_size : ℕ
  pub jobs : ℕ
  pub Limits : Type 0
  pub Key : Type 0
  pub Compiled : Type 0

module _ (s : Embedding) where
  open s use {js, places, json, alloc, dealloc, memory_size, jobs}

  abbrev pub Guest : Type 0
  Guest = Instance js places json

  abbrev pub There : Type 0
  There = World Guest s.Limits s.Key s.Compiled

  abbrev pub allocator : Allocator
  allocator = record { State = places.Heap; alloc = alloc; dealloc = dealloc }

  -- A panic and an abort end in the trap of an unreachable instruction, and a guest whose jobs go on
  -- for ever uses up its fuel. The memory has a size.
  unfoldable pub called :
      There → Option (Ends (Instance js places json) ℕ) → There × Result Anyhow ℕ
  called w none = (w, err (trapped Trap.out_of_fuel))
  called w (some panics) = (w, err (trapped Trap.unreachable_code_reached))
  called w (some (aborts e)) = (w, err (trapped Trap.unreachable_code_reached))
  called w (some (returns i at)) = (record w { guest = i }, ok at)

  unfoldable pub moved : There → Ends (places.Heap × Bytes) ℕ → There × Result Anyhow ℕ
  moved w panics = (w, err (trapped Trap.unreachable_code_reached))
  moved w (aborts e) = (w, err (trapped Trap.unreachable_code_reached))
  moved w (returns (heap, memory) at) =
      (record w { guest = record w.guest { heap = heap; memory = memory } }, ok at)

  unfoldable pub fetch_bytes : ℕ → ℕ → There → There × Result Anyhow (List ℕ)
  fetch_bytes at count w =
      if leb (at + count) memory_size
      then (w, ok (read w.guest.memory at count))
      else (w, err (message "out of bounds memory access"))

  unfoldable pub store_bytes : ℕ → List ℕ → There → There × Result Anyhow (Unit {0})
  store_bytes at bytes w =
      if leb (at + length bytes) memory_size
      then (record w { guest = record w.guest { memory = write w.guest.memory at bytes } }, ok tt)
      else (w, err (message "out of bounds memory access"))

  abbrev pub plugin_provider : Provider There
  plugin_provider = record {
    Memory = Unit {0};
    Realloc = Unit {0};
    Step = Unit {0};
    call_realloc = λ f ptr old align size w.
        moved w (realloc allocator ptr old align size (w.guest.heap, w.guest.memory));
    call_step = λ f ptr len w. called w (step js places json jobs ptr len w.guest);
    write_memory = λ m at bytes w. store_bytes at bytes w;
    read_memory = λ m at count w. fetch_bytes at count w;
  }
