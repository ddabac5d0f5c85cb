-- ===== src/Plugin/Step/Host/Heard.antt =====
-- What `Execution::advance` (native/javex_nif/src/sandbox.rs) reads from the provider is what the
-- provider's step (native/javex_plugin/src/lib.rs) was to say.
use javex.Base.{
  ℕ, ◌+◌, ◌≤◌, ◌<◌, ◌≡◌, refl, sym, ap, ap₂, ◌∙◌, subst, Bool, true, false, Bool-cases, Option,
  none, some, inl, inr, ◌⊎◌, List, [], length, take, drop, leb, arith, u32_mod, into_bytes, Anyhow,
  Result, ok, err, ok-injective, ok-ne-err,
}
use javex.Execution.{lift, Bridge, Execution, from_le_bytes}
use javex.Execution.Advance.{verdict, fetch, exchange}
use javex.Execution.Advance.Laws.{proceed-eq-ok}
use javex.Plugin.{Ends, returns, panics, aborts}
use javex.Plugin.Memory.{read, write}
use javex.Plugin.Memory.Laws.{read-write}
use javex.Plugin.Step.{step}
use javex.Plugin.Step.Says.{spoken, Says}
use javex.Plugin.Step.Sound.{step_sound}
use javex.Plugin.Step.Output.{IsPlaced, Holds}
use javex.Plugin.Step.Host.{
  Embedding, Guest, There, called, fetch_bytes, store_bytes, plugin_provider,
}

module _ (s : Embedding) where
  open s use {js, places, json, memory_size}

  -- What the host makes of an answer: the very tag and payload, or the news that a diagnostic is too
  -- long.
  pub data Heard (max_step max_diagnostic : ℕ) (told : Result Anyhow (List ℕ))
      : ℕ × List ℕ → Type 0 where
    state :
        (bytes : List ℕ)
        → told ≡ ok bytes
        → length bytes ≤ max_step
        → Heard max_step max_diagnostic told (0, bytes)
    diagnostic :
        (e : Anyhow)
        → told ≡ err e
        → length (into_bytes (places.display e)) ≤ max_diagnostic
        → Heard max_step max_diagnostic told (1, into_bytes (places.display e))
    cut :
        (e : Anyhow)
        → told ≡ err e
        → max_diagnostic < length (into_bytes (places.display e))
        → Heard max_step max_diagnostic told (2, [])

  called-returns :
      (w w' : There s) (o : Option (Ends (Guest s) ℕ)) (at : ℕ)
      → called s w o ≡ (w', ok at)
      → o ≡ some (returns w'.guest at)
  unfolding called
  called-returns w w' none at h = absurd (ok-ne-err (sym (ap (λ r. r.1) h)))
  called-returns w w' (some panics) at h = absurd (ok-ne-err (sym (ap (λ r. r.1) h)))
  called-returns w w' (some (aborts e)) at h = absurd (ok-ne-err (sym (ap (λ r. r.1) h)))
  called-returns w w' (some (returns i at')) at h =
      ap₂ (λ g n. some (returns g n)) (ap (λ r. r.0.guest) h) (ok-injective (ap (λ r. r.1) h))

  fetched :
      (at count : ℕ) (w w' : There s) (bytes : List ℕ)
      → fetch_bytes s at count w ≡ (w', ok bytes)
      → (w ≡ w') × (read w.guest.memory at count ≡ bytes)
  unfolding fetch_bytes
  fetched at count w w' bytes h = elim (Bool-cases (leb (at + count) memory_size)) [
    | inl within ↦ (ground (arith, h, within), ground (arith, h, within))
    | inr beyond ↦ absurd (ground (arith, h, beyond))
  ]

  -- What is written is read back, and all else of the world stays.
  stored :
      (at : ℕ) (bytes : List ℕ) (w w' : There s)
      → store_bytes s at bytes w ≡ (w', ok tt)
      → read w'.guest.memory at (length bytes) ≡ bytes
  unfolding store_bytes
  stored at bytes w w' h = elim (Bool-cases (leb (at + length bytes) memory_size)) [
    | inl within ↦
        let after : record w { guest = record w.guest { memory = write w.guest.memory at bytes } }
            ≡ w' =
          ground (arith, h, within) in
        subst (λ (v : There s). read v.guest.memory at (length bytes) ≡ bytes) after
          (read-write w.guest.memory at bytes)
    | inr beyond ↦ absurd (ground (arith, h, beyond))
  ]

  module _ (e : Execution (plugin_provider s)) (b : Bridge (plugin_provider s)) where
    -- What is read when the record says where the answer is.
    read_back :
        (tag ptr len result_ptr size : ℕ) (payload : List ℕ) (w w' : There s) (r : ℕ × List ℕ)
        → size ≡ length payload
        → read w.guest.memory result_ptr (length payload) ≡ payload
        → fetch e b tag ptr len result_ptr size true w ≡ (w', ok r)
        → (tag, payload) ≡ r
    unfolding fetch
    read_back tag ptr len result_ptr size payload w w' r same held h =
        let (w1, bytes, got, h1) = proceed-eq-ok (fetch_bytes s result_ptr size w) _ h in
        let (w2, _, _, h2) =
          proceed-eq-ok ((plugin_provider s).call_realloc b.realloc ptr len 1 0 w1) _ h1 in
        let found : read w.guest.memory result_ptr size ≡ bytes =
          (fetched result_ptr size w w1 bytes got).1 in
        let is_payload : payload ≡ bytes =
          sym held ∙ ap (λ n. read w.guest.memory result_ptr n) (sym same) ∙ found in
        ap (λ x. (tag, x)) is_payload ∙ ok-injective (ap (λ x. x.1) h2)

    skipped :
        (tag ptr len result_ptr size : ℕ) (w w' : There s) (r : ℕ × List ℕ)
        → fetch e b tag ptr len result_ptr size false w ≡ (w', ok r)
        → (2, []) ≡ r
    unfolding fetch
    skipped tag ptr len result_ptr size w w' r h = ok-injective (ap (λ x. x.1) h)

    fetch-Heard :
        (told : Result Anyhow (List ℕ)) (tag ptr len result_ptr size : ℕ) (readable : Bool)
        (w w' : There s) (r : ℕ × List ℕ)
        → tag ≡ (spoken places told).0
        → size ≡ length (spoken places told).1
        → read w.guest.memory result_ptr (length (spoken places told).1) ≡ (spoken places told).1
        → verdict e tag size ≡ ok readable
        → fetch e b tag ptr len result_ptr size readable w ≡ (w', ok r)
        → Heard e.max_step e.max_diagnostic told r
    unfolding verdict
    fetch-Heard (ok bytes) tag ptr len result_ptr size true w w' r is_state same held judged h =
        subst (Heard e.max_step e.max_diagnostic (ok bytes))
          (ap (λ t. (t, bytes)) (sym is_state)
            ∙ read_back tag ptr len result_ptr size bytes w w' r same held h)
          (state bytes refl (ground (arith, is_state, judged, same)))
    fetch-Heard (ok bytes) tag ptr len result_ptr size false w w' r is_state same held judged h =
        absurd (ground (arith, is_state, judged))
    fetch-Heard (err x) tag ptr len result_ptr size true w w' r is_error same held judged h =
        subst (Heard e.max_step e.max_diagnostic (err x))
          (ap (λ t. (t, into_bytes (places.display x))) (sym is_error)
            ∙ read_back tag ptr len result_ptr size (into_bytes (places.display x)) w w' r same held
                h)
          (diagnostic x refl (ground (arith, is_error, judged, same)))
    fetch-Heard (err x) tag ptr len result_ptr size false w w' r is_error same held judged h =
        subst (Heard e.max_step e.max_diagnostic (err x))
          (skipped tag ptr len result_ptr size w w' r h)
          (cut x refl (ground (arith, is_error, judged, same)))

    -- What follows the record, once it holds what was answered.
    follow-Heard :
        (told : Result Anyhow (List ℕ)) (at ptr len : ℕ) (fields : List ℕ) (readable : Bool)
        (w w' w'' : There s) (r : ℕ × List ℕ)
        → Holds w.guest.memory at (spoken places told).0 (spoken places told).1
        → read w.guest.memory at 12 ≡ fields
        → lift
            (verdict e (from_le_bytes (take 4 fields)) (from_le_bytes (take 4 (drop 8 fields))))
            w
          ≡ (w', ok readable)
        → fetch e b
            (from_le_bytes (take 4 fields))
            ptr
            len
            (from_le_bytes (take 4 (drop 4 fields)))
            (from_le_bytes (take 4 (drop 8 fields)))
            readable
            w'
          ≡ (w'', ok r)
        → Heard e.max_step e.max_diagnostic told r
    follow-Heard told at ptr len fields readable w w' w'' r holds got judged h =
        let same : holds.fields ≡ fields = sym holds.record_read ∙ got in
        let stays : w ≡ w' = ap (λ x. x.0) judged in
        fetch-Heard told (from_le_bytes (take 4 fields)) ptr len
          (from_le_bytes (take 4 (drop 4 fields))) (from_le_bytes (take 4 (drop 8 fields))) readable
          w' w'' r (ap (λ f. from_le_bytes (take 4 f)) (sym same) ∙ holds.tag_field)
          (ap (λ f. from_le_bytes (take 4 (drop 8 f))) (sym same) ∙ holds.size_field)
          (ap₂
              (λ v f.
                read v.guest.memory (from_le_bytes (take 4 (drop 4 f)))
                  (length (spoken places told).1))
              (sym stays) (sym same)
            ∙ holds.payload_read)
          (ap (λ x. x.1) judged) h

    -- The same from a record that was read after the step, unless the answer is as long as the address
    -- space.
    held-Heard :
        (told : Result Anyhow (List ℕ)) (at ptr len : ℕ) (fields : List ℕ) (readable : Bool)
        (w3 w4 w5 w' : There s) (r : ℕ × List ℕ)
        → (u32_mod ≤ length (spoken places told).1)
          ⊎ Holds w3.guest.memory at (spoken places told).0 (spoken places told).1
        → fetch_bytes s at 12 w3 ≡ (w4, ok fields)
        → lift
            (verdict e (from_le_bytes (take 4 fields)) (from_le_bytes (take 4 (drop 8 fields))))
            w4
          ≡ (w5, ok readable)
        → fetch e b
            (from_le_bytes (take 4 fields))
            ptr
            len
            (from_le_bytes (take 4 (drop 4 fields)))
            (from_le_bytes (take 4 (drop 8 fields)))
            readable
            w5
          ≡ (w', ok r)
        → (u32_mod ≤ length (spoken places told).1) ⊎ Heard e.max_step e.max_diagnostic told r
    held-Heard told at ptr len fields readable w3 w4 w5 w' r (inl long) got judged h = inl long
    held-Heard told at ptr len fields readable w3 w4 w5 w' r (inr holds) got judged h =
        let same = fetched at 12 w3 w4 fields got in
        inr (
          follow-Heard told at ptr len fields readable w4 w5 w' r
            (subst
              (λ (v : There s).
                Holds v.guest.memory at (spoken places told).0 (spoken places told).1)
              same.0 holds)
            (ap (λ (v : There s). read v.guest.memory at 12) (sym same.0) ∙ same.1) judged h)

    -- With buffers that lie apart from the record: whatever is exchanged with the provider, the
    -- completions lie in the guest, a step of it returned there, and the host gets what this step was to
    -- say, unless that is as long as the address space: a state as it is and within the limit of a step,
    -- an error as its text, or the news that the text is too long.
    pub exchange-Heard :
        (completion : List ℕ) (len : ℕ) (w w' : There s) (r : ℕ × List ℕ)
        → IsPlaced places
        → exchange e b completion len w ≡ (w', ok r)
        → (told : Result Anyhow (List ℕ)) × (before after : Guest s) × (ptr at : ℕ) × (read
              before.memory ptr
              (length completion)
            ≡ completion)
          × (step js places json s.jobs ptr len before ≡ some (returns after at))
          × Says js places json before ptr len told
          × ((u32_mod ≤ length (spoken places told).1) ⊎ Heard e.max_step e.max_diagnostic told r)
    unfolding exchange
    exchange-Heard completion len w w' r placed h =
        let p = plugin_provider s in
        let (w1, ptr, _, h1) = proceed-eq-ok (p.call_realloc b.realloc 0 0 1 len w) _ h in
        let (w2, _, written, h2) = proceed-eq-ok (p.write_memory b.memory ptr completion w1) _ h1 in
        let (w3, at, stepped, h3) = proceed-eq-ok (p.call_step b.step ptr len w2) _ h2 in
        let (w4, fields, got, h4) = proceed-eq-ok (fetch_bytes s at 12 w3) _ h3 in
        let tag = from_le_bytes (take 4 fields) in
        let size = from_le_bytes (take 4 (drop 8 fields)) in
        let (w5, readable, judged, h5) = proceed-eq-ok (lift (verdict e tag size) w4) _ h4 in
        let returned =
          called-returns w2 w3 (step js places json s.jobs ptr len w2.guest) at stepped in
        let stands =
          step_sound js places json placed w2.guest ptr len s.jobs (returns w3.guest at) returned in
        (
          stands.told,
          w2.guest,
          w3.guest,
          ptr,
          at,
          stored ptr completion w1 w2 written,
          returned,
          stands.says,
          held-Heard stands.told at ptr len fields readable w3 w4 w5 w' r stands.held got judged h5,
        )
