-- ===== src/Cache/Origin.antt =====
-- Where a cached module of native/javex_nif/src/sandbox.rs comes from.
use javex.Base.{
  ◌<◌, ◌≡◌, sym, ◌∙◌, some, List, [], ◌∷◌, arith, drop, All, All-drop, All-append, ok, usize_mod,
  Option-cases, inl, inr, ok-injective, subst, subst₂,
}
use javex.Cache.{Image, Entry, Cache, CacheOptions, get, insert, empty}
use javex.Cache.Find.{find, without, after_get, get-find}
use javex.Cache.Find.Keys.{All-without, All-find}
use javex.Cache.Find.Ends.{get-found}
use javex.Cache.Invariant.{IsValid, empty-IsValid, after_get-IsValid}
use javex.Cache.Insert.{
  IsCacheable-cases, roomy, fresh, insert_uncacheable, insert_known, insert_new,
}
use javex.Cache.History.{Call, gets, inserts, step, run, step-IsValid}

module _ {K M : Type 0} (dec : Discrete K) (image_range : M → Image) where
  -- What is true of every module that is inserted under its key holds of whatever is cached.
  module _ (P : K → M → Type 0) where
    -- Each call inserts a module that belongs to its key.
    abbrev pub AreSound : List (Call K M) → Type 0
    AreSound [] = Unit {0}
    AreSound (gets k ∷ calls) = AreSound calls
    AreSound (inserts k m ∷ calls) = P k m × AreSound calls

    abbrev pub Holds : Entry K M → Type 0
    Holds e = P e.key e.compiled

    get-Holds :
        (c : Cache K M) (k : K)
        → All Holds c.entries
        → All Holds (after_get dec c k (find dec k c.entries)).entries
    unfolding after_get
    get-Holds c k h = elim (Option-cases (find dec k c.entries)) [
      | inl miss ↦ rw (miss, after_get) h
      | inr (e, hit) ↦
          rw (hit, after_get)
            (All-append Holds (without dec k c.entries) (e ∷ [])
              (All-without dec Holds k c.entries h) (All-find dec Holds k c.entries e h hit, tt))
    ]

    insert-Holds :
        (c c' : Cache K M) (k : K) (m : M)
        → IsValid dec c
        → P k m
        → insert dec image_range c k m ≡ ok c'
        → All Holds c.entries
        → All Holds c'.entries
    insert-Holds c c' k m v p done h = elim (IsCacheable-cases dec image_range c k m) [
      | inr no_room ↦ unchanged (
          insert_uncacheable dec image_range c k m
            (λ f. ground (arith, roomy dec image_range c k m f)))
      | inl fits ↦ elim (Option-cases (find dec k c.entries)) [
        | inr (e, hit) ↦ unchanged (insert_known dec image_range c k m {e = e} hit)
        | inl absent ↦
            let (n, kept, room, same_limits, same_hits) =
              insert_new dec image_range c k m v fits absent c' done in
            rw kept (
              All-append Holds (drop n c.entries) (fresh dec image_range k m ∷ [])
                (All-drop Holds n c.entries h) (p, tt))
      ]
    ]
      where
        unchanged : insert dec image_range c k m ≡ ok c → All Holds c'.entries
        unchanged same =
            subst (λ (x : Cache K M). All Holds x.entries) (ok-injective (sym same ∙ done)) h

    run-Holds :
        (c c' : Cache K M) (calls : List (Call K M))
        → IsValid dec c
        → AreSound calls
        → run dec image_range c calls ≡ ok c'
        → All Holds c.entries
        → All Holds c'.entries
    unfolding run step
    run-Holds c c' [] v sound done h =
        subst (λ (x : Cache K M). All Holds x.entries) (ok-injective done) h
    run-Holds c c' (gets k ∷ calls) v sound done h =
        run-Holds (after_get dec c k (find dec k c.entries)) c' calls (after_get-IsValid dec c k v)
          sound (rw (get-find dec c k) at done) (get-Holds c k h)
    run-Holds c c' (inserts k m ∷ calls) v sound done h =
        let (next, stepped, v') = step-IsValid dec image_range c (inserts k m) v in
        run-Holds next c' calls v' sound.1 (rw stepped at done)
          (insert-Holds c next k m v sound.0 stepped h)

    -- If every module is inserted under a key that fits it, then on a new cache whose budget of
    -- bytes is below 2^64, whatever runs, a hit returns a module that fits the very key.
    pub get-run_sound :
        (limits : CacheOptions) (calls : List (Call K M)) (c c' : Cache K M) (k : K) (m : M)
        → limits.max_cache_bytes < usize_mod
        → AreSound calls
        → run dec image_range (empty limits) calls ≡ ok c
        → get dec c k ≡ ok (c', some m)
        → P k m
    unfolding empty
    get-run_sound limits calls c c' k m w sound done hit =
        let h = run-Holds (empty limits) c calls (empty-IsValid dec limits w) sound done tt in
        let (e, found, key, module_e) = get-found dec c c' k m hit in
        subst₂ P key module_e (All-find dec Holds k c.entries e h found)
