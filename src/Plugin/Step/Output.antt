-- ===== src/Plugin/Step/Output.antt =====
-- What the host finds when it follows the record of `output` (native/javex_plugin/src/lib.rs).
use javex.Base.{ℕ, ◌+◌, ◌≤◌, ◌<◌, ◌≡◌, ◌⊎◌, ap, ◌∙◌, List, ◌++◌, length, take, drop, u32_mod}
use javex.Execution.{from_le_bytes}
use javex.Execution.Advance.{StateJson}
use javex.Plugin.Memory.{Bytes, read, write, to_le_bytes}
use javex.Plugin.Memory.Laws.{read-write, read-write_apart, from_le_bytes-to_le_bytes}
use javex.Plugin.Settle.{QuickJs}
use javex.Plugin.Step.{Places, Instance, output}

-- The buffers lie in the 32 bits of an address, and apart from the record.
pub record IsPlaced (places : Places) : Type 0 where
  pub small : (h : places.Heap) (m : Bytes) (n : ℕ) → (places.place h m n).2 < u32_mod
  pub apart :
      (h : places.Heap) (m : Bytes) (n : ℕ)
      → ((places.place h m n).2 + n ≤ places.record_at)
        ⊎ (places.record_at + 12 ≤ (places.place h m n).2)

-- At `at` there is the record of a tag and of a payload.
pub record Holds (m : Bytes) (at tag : ℕ) (payload : List ℕ) : Type 0 where
  pub fields : List ℕ
  pub record_read : read m at 12 ≡ fields
  pub tag_field : from_le_bytes (take 4 fields) ≡ tag
  pub size_field : from_le_bytes (take 4 (drop 8 fields)) ≡ length payload
  pub payload_read : read m (from_le_bytes (take 4 (drop 4 fields))) (length payload) ≡ payload

module _ (js : QuickJs) (places : Places) (json : StateJson) (placed : IsPlaced places) where
  pub output-Holds :
      (tag : ℕ) (bytes : List ℕ) (i : Instance js places json)
      → tag < u32_mod
      → length bytes < u32_mod
      → Holds
          (output js places json tag bytes i).0.memory
          (output js places json tag bytes i).1
          tag
          bytes
  unfolding output to_le_bytes
  output-Holds tag bytes i small fits =
      let spot = places.place i.heap i.memory (length bytes) in
      let fields = to_le_bytes tag ++ (to_le_bytes spot.2 ++ to_le_bytes (length bytes)) in
      let inner = write spot.1 spot.2 bytes in
      let pointer =
        from_le_bytes-to_le_bytes spot.2 (placed.small i.heap i.memory (length bytes)) in
      record {
        fields = fields;
        record_read = read-write inner places.record_at fields;
        tag_field = from_le_bytes-to_le_bytes tag small;
        size_field = from_le_bytes-to_le_bytes (length bytes) fits;
        payload_read =
            ap (λ p. read (write inner places.record_at fields) p (length bytes)) pointer
            ∙ read-write_apart inner places.record_at fields spot.2 (length bytes)
                (placed.apart i.heap i.memory (length bytes))
            ∙ read-write spot.1 spot.2 bytes;
      }
