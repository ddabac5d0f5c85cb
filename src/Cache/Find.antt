-- ===== src/Cache/Find.antt =====
-- What a lookup finds and where it moves the entry (`Cache::get` of
-- native/javex_nif/src/sandbox.rs), with the indices gone.
pub mod Keys
pub mod Ends
use mathlib.Core.Logic.{ite, if_pos, if_neg}
use mathlib.Core.Option
use javex.Base.{
  ℕ, suc, ◌+◌, ◌≡◌, ◌≢◌, refl, sym, ◌∙◌, Option, none, some, List, [], ◌∷◌, ◌++◌, arith, length,
  All, Result, ok, wrapping_add, Option-cases, inl, inr, true, false, subst,
}
use javex.Cache.{Entry, Cache, Panic, remove, position, get, contains}

-- The bytes of the images.
abbrev pub total : {K M : Type 0} → List (Entry K M) → ℕ
total [] = 0
total (e ∷ es) = e.size + total es

pub total-append :
    {K M : Type 0} (xs ys : List (Entry K M)) → total (xs ++ ys) ≡ total xs + total ys
total-append [] ys = omega arith
total-append (x ∷ xs) ys = omega (arith, total-append xs ys)

module _ {K M : Type 0} (dec : Discrete K) where
  unfoldable pub find : K → List (Entry K M) → Option (Entry K M)
  find k [] = none
  find k (e ∷ es) = ite (dec e.key k) (some e) (find k es)

  -- The entries without the first one of the key.
  unfoldable pub without : K → List (Entry K M) → List (Entry K M)
  without k [] = []
  without k (e ∷ es) = ite (dec e.key k) es (e ∷ without k es)

  -- No key stands twice.
  abbrev pub Distinct : List (Entry K M) → Type 0
  Distinct [] = Unit {0}
  Distinct (e ∷ es) = (find e.key es ≡ none) × Distinct es

  -- `get` in one line: the found entry goes to the back.
  unfoldable pub after_get : Cache K M → K → Option (Entry K M) → Cache K M
  after_get c k none = c
  after_get c k (some e) = record c {
    entries = without k c.entries ++ e ∷ [];
    hits = wrapping_add c.hits 1;
  }

  position_miss : (k : K) (es : List (Entry K M)) → find k es ≡ none → position dec k es ≡ none
  unfolding find position
  position_miss k [] h = refl
  position_miss k (e ∷ es) h = elim (dec e.key k) [
    | yes p ↦ absurd (ground arith)
    | no p ↦ rw (if_neg _ p, position_miss k es (ground arith))
  ]

  position_hit :
      (k : K) (es : List (Entry K M)) (e : Entry K M)
      → find k es ≡ some e
      → (i : ℕ) × (position dec k es ≡ some i) × (remove es i ≡ some (e, without k es))
  unfolding find position remove without
  position_hit k [] e h = cc
  position_hit k (x ∷ es) e h = elim (dec x.key k) [
    | yes p ↦ (0, rw (if_pos _ p), ground arith)
    | no p ↦
        let (i, found, removed) = position_hit k es e (ground arith) in
        (suc i, rw (if_neg _ p, found), rw (removed, if_neg _ p))
  ]

  -- `get` never panics; it returns the module that is stored under the key.
  pub get-find :
      (c : Cache K M) (k : K)
      → get dec c k
        ≡ ok (after_get c k (find k c.entries), Option.map (λ e. e.compiled) (find k c.entries))
  unfolding get after_get
  get-find c k = elim (Option-cases (find k c.entries)) [
    | inl miss ↦ rw (miss, position_miss k c.entries miss, get)
    | inr (e, hit) ↦
        let (i, found, removed) = position_hit k c.entries e hit in
        rw (hit, found, get) (rw removed)
  ]
