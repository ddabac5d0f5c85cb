-- ===== src/Cache/Find/Ends.antt =====
-- The two ends of a queue of entries (native/javex_nif/src/sandbox.rs) whose keys are distinct.
use mathlib.Core.Logic.{if_neg}
use mathlib.Core.Option
use javex.Base.{
  ◌≡◌, refl, sym, ◌∙◌, Option, none, some, List, [], ◌∷◌, ◌++◌, arith, Result, ok, Option-cases,
  inl, inr,
}
use javex.Cache.{Entry, Cache, Panic, get}
use javex.Cache.Find.{Distinct, after_get, find, get-find, without}
use javex.Cache.Find.Keys.{find-append_right, find-key, without-miss}

module _ {K M : Type 0} (dec : Discrete K) where
  pub without-append_right :
      (k : K) (xs ys : List (Entry K M))
      → find dec k ys ≡ none
      → without dec k (xs ++ ys) ≡ without dec k xs ++ ys
  unfolding without
  without-append_right k [] ys h = without-miss dec k ys h
  without-append_right k (x ∷ xs) ys h = ground (arith, without-append_right k xs ys h)

  -- In a list with no key twice, a key of the second part is not in the first.
  pub Distinct-append_left :
      (k : K) (xs ys : List (Entry K M)) (e : Entry K M)
      → Distinct dec (xs ++ ys)
      → find dec k ys ≡ some e
      → find dec k xs ≡ none
  unfolding find
  Distinct-append_left k [] ys e d h = refl
  Distinct-append_left k (x ∷ xs) ys e d h = elim (dec x.key k) [
    | yes p ↦ absurd (none-ne-some {a = e} (sym (find-append_right dec x.key xs ys d.0) ∙ (rw p h)))
    | no p ↦ rw (if_neg _ p) (Distinct-append_left k xs ys e d.1 h)
  ]
    where
      none-ne-some : {a : Entry K M} → ◌≡◌ {A = Option (Entry K M)} none (some a) → ⊥
      none-ne-some q = cc

  -- A hit of `get` is an entry of that key.
  pub get-found :
      (c c' : Cache K M) (k : K) (m : M)
      → get dec c k ≡ ok (c', some m)
      → (e : Entry K M) × (find dec k c.entries ≡ some e) × (e.key ≡ k) × (e.compiled ≡ m)
  get-found c c' k m hit = elim (Option-cases (find dec k c.entries)) [
    | inl miss ↦ absurd (clash (rw miss at both))
    | inr (e, found) ↦ (e, found, find-key dec k c.entries e found, same (rw found at both))
  ]
    where
      both : ◌≡◌ {A = Result Panic (Cache K M × Option M)} (ok (c', some m)) (
          ok (
            after_get dec c k (find dec k c.entries),
            Option.map (λ e. e.compiled) (find dec k c.entries),
          ))
      both = sym hit ∙ get-find dec c k

      clash :
          {x : Cache K M}
          → ◌≡◌ {A = Result Panic (Cache K M × Option M)} (ok (c', some m)) (ok (x, none))
          → ⊥
      clash e = cc

      same :
          {x : Cache K M} {m' : M}
          → ◌≡◌ {A = Result Panic (Cache K M × Option M)} (ok (c', some m)) (ok (x, some m'))
          → m' ≡ m
      same e = cc
