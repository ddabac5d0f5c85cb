-- ===== src/Cache/Recent.antt =====
-- The order of eviction in `Cache` (native/javex_nif/src/sandbox.rs), against a history that forgets
-- nothing.
use mathlib.Core.Path.{◌≡⟨◌⟩◌, ◌∎}
use javex.Base.{
  ℕ, ◌<◌, ◌≡◌, refl, sym, ap, ◌∙◌, Option, none, some, List, [], ◌∷◌, ◌++◌, arith, append_assoc,
  drop, take, take-append-drop, ok, err, usize_mod, Option-cases, inl, inr, ok-injective, subst,
  ltb, ◌==◌, ◌||◌, if◌then◌else◌,
}
use javex.Cache.{Image, Entry, Cache, CacheOptions, insert, empty, image_size}
use javex.Cache.Find.{find, without, Distinct, after_get, get-find}
use javex.Cache.Find.Keys.{
  find-key, find-without_self, Distinct-without, Distinct-snoc, without-append,
}
use javex.Cache.Find.Ends.{without-append_right, Distinct-append_left}
use javex.Cache.Invariant.{IsValid, empty-IsValid}
use javex.Cache.Insert.{
  IsCacheable-cases, roomy, fresh, insert_uncacheable, insert_known, insert_new,
}
use javex.Cache.History.{Call, gets, inserts, step, run, step-IsValid}

resplit {ℓ} :
    {A : Type ℓ} (xs ys zs : List A) (n : ℕ)
    → (xs ++ ys) ++ zs ≡ (xs ++ take n ys) ++ (drop n ys ++ zs)
resplit xs ys zs n =
    (xs ++ ys) ++ zs
    ≡⟨ append_assoc xs ys zs ⟩ xs ++ (ys ++ zs)
    ≡⟨ ap (λ l. xs ++ (l ++ zs)) (sym (take-append-drop n ys)) ⟩
      xs ++ ((take n ys ++ drop n ys) ++ zs)
    ≡⟨ ap (◌++◌ xs) (append_assoc (take n ys) (drop n ys) zs) ⟩
      xs ++ (take n ys ++ (drop n ys ++ zs))
    ≡⟨ sym (append_assoc xs (take n ys) (drop n ys ++ zs)) ⟩
      (xs ++ take n ys) ++ (drop n ys ++ zs) ∎

module _ {K M : Type 0} (dec : Discrete K) (image_range : M → Image) where
  -- The key that a call is about.
  abbrev pub key_of : Call K M → K
  key_of (gets k) = k
  key_of (inserts k m) = k

  -- What a call puts at the back of the queue: the entry that it hits, or the new one.
  unfoldable pub used : Cache K M → Call K M → Option (Entry K M)
  used c (gets k) = find dec k c.entries
  used c (inserts k m) =
      if ltb c.limits.max_cache_bytes (image_size image_range m)
        || (c.limits.max_cached_modules == 0)
      then none
      else elim (find dec k c.entries) [ none ↦ some (fresh dec image_range k m) | some _ ↦ none ]

  -- The ideal history, which forgets nothing: every module once, by its last use, oldest first.
  abbrev pub note : K → Option (Entry K M) → List (Entry K M) → List (Entry K M)
  note k none h = h
  note k (some e) h = without dec k h ++ e ∷ []

  unfoldable pub history : List (Entry K M) → Cache K M → List (Call K M) → List (Entry K M)
  history h c [] = h
  history h c (call ∷ calls) = elim (step dec image_range c call) [
    | ok c' ↦ history (note (key_of call) (used c call) h) c' calls
    | err _ ↦ h
  ]

  -- The cache is the recent end of the history.
  pub record IsRecent (es h : List (Entry K M)) : Type 0 where
    pub old : List (Entry K M)
    pub split : h ≡ old ++ es
    pub distinct : Distinct dec h

  module _ (c : Cache K M) (k : K) (h : List (Entry K M)) (r : IsRecent c.entries h) where
    both-Distinct : Distinct dec (r.old ++ c.entries)
    both-Distinct = subst (Distinct dec) r.split r.distinct

    get-IsRecent :
        IsRecent
          (after_get dec c k (find dec k c.entries)).entries
          (note k (find dec k c.entries) h)
    unfolding after_get
    get-IsRecent = elim (Option-cases (find dec k c.entries)) [
      | inl miss ↦ rw (miss, after_get) r
      | inr (e, hit) ↦
          rw (hit, after_get)
            (record {
              old = r.old;
              split =
                  rw
                    (
                      r.split,
                      without-append dec k r.old c.entries
                          (Distinct-append_left dec k r.old c.entries e both-Distinct hit),
                    )
                    (append_assoc r.old (without dec k c.entries) (e ∷ []));
              distinct =
                  Distinct-snoc dec (without dec k h) e (Distinct-without dec k h r.distinct)
                    (rw (find-key dec k c.entries e hit) (find-without_self dec k h r.distinct));
            })
    ]

    new-IsRecent :
        (m : M) (n : ℕ) (c' : Cache K M)
        → find dec k c.entries ≡ none
        → c'.entries ≡ drop n c.entries ++ fresh dec image_range k m ∷ []
        → IsRecent c'.entries (note k (some (fresh dec image_range k m)) h)
    new-IsRecent m n c' absent kept = record {
      old = without dec k r.old ++ take n c.entries;
      split =
          rw (r.split, without-append_right dec k r.old c.entries absent, kept)
            (resplit (without dec k r.old) c.entries (fresh dec image_range k m ∷ []) n);
      distinct =
          Distinct-snoc dec (without dec k h) (fresh dec image_range k m)
            (Distinct-without dec k h r.distinct) (find-without_self dec k h r.distinct);
    }

    insert-IsRecent :
        (m : M) (c' : Cache K M)
        → IsValid dec c
        → insert dec image_range c k m ≡ ok c'
        → IsRecent c'.entries (note k (used c (inserts k m)) h)
    unfolding used
    insert-IsRecent m c' v done = elim (IsCacheable-cases dec image_range c k m) [
      | inr no_room ↦ rw no_room (
          unchanged (
            insert_uncacheable dec image_range c k m
              (λ f. ground (arith, roomy dec image_range c k m f))))
      | inl fits ↦
          rw (roomy dec image_range c k m fits) (elim (Option-cases (find dec k c.entries)) [
            | inr (e, hit) ↦ rw hit (unchanged (insert_known dec image_range c k m {e = e} hit))
            | inl absent ↦
                let (n, kept, room, same_limits, same_hits) =
                  insert_new dec image_range c k m v fits absent c' done in
                rw absent (new-IsRecent m n c' absent kept)
          ])
    ]
      where
        unchanged : insert dec image_range c k m ≡ ok c → IsRecent c'.entries h
        unchanged same =
            subst (λ (x : Cache K M). IsRecent x.entries h) (ok-injective (sym same ∙ done)) r

  step-IsRecent :
      (c c' : Cache K M) (call : Call K M) (h : List (Entry K M))
      → IsValid dec c
      → step dec image_range c call ≡ ok c'
      → IsRecent c.entries h
      → IsRecent c'.entries (note (key_of call) (used c call) h)
  unfolding step used
  step-IsRecent c c' (gets k) h v done r =
      subst (λ (x : Cache K M). IsRecent x.entries (note k (find dec k c.entries) h))
        (ok-injective (rw (get-find dec c k) at done)) (get-IsRecent c k h r)
  step-IsRecent c c' (inserts k m) h v done r = insert-IsRecent c k h r m c' v done

  run-IsRecent :
      (c c' : Cache K M) (calls : List (Call K M)) (h : List (Entry K M))
      → IsValid dec c
      → IsRecent c.entries h
      → run dec image_range c calls ≡ ok c'
      → IsRecent c'.entries (history h c calls)
  unfolding run history
  run-IsRecent c c' [] h v r done =
      subst (λ (x : Cache K M). IsRecent x.entries h) (ok-injective done) r
  run-IsRecent c c' (call ∷ calls) h v r done =
      let (next, stepped, v') = step-IsValid dec image_range c call v in
      rw (stepped, history)
        (run-IsRecent next c' calls (note (key_of call) (used c call) h) v'
          (step-IsRecent c next call h v stepped r) (rw stepped at done))

  -- After any calls on a new cache whose budget of bytes is below 2^64, its entries are the recent
  -- end of the history, in order: what was evicted was always used less recently than all that
  -- stayed.
  pub run-empty-IsRecent :
      (limits : CacheOptions) (calls : List (Call K M)) (c : Cache K M)
      → limits.max_cache_bytes < usize_mod
      → run dec image_range (empty limits) calls ≡ ok c
      → IsRecent c.entries (history [] (empty limits) calls)
  unfolding empty
  run-empty-IsRecent limits calls c w =
      run-IsRecent (empty limits) c calls [] (empty-IsValid dec limits w)
        (record { old = []; split = refl; distinct = tt })
