-- ===== src/Cache/Find/Keys.antt =====
-- What is found in a queue of entries under a key (native/javex_nif/src/sandbox.rs), once entries are added or
-- removed.
use mathlib.Core.Logic.{if_pos, if_neg}
use javex.Base.{
  ◌+◌, ◌≡◌, ◌≢◌, refl, ◌∙◌, none, some, List, [], ◌∷◌, ◌++◌, arith, length, All, true, false, subst,
}
use javex.Cache.{Entry, contains}
use javex.Cache.Find.{Distinct, find, total, without}

module _ {K M : Type 0} (dec : Discrete K) where
  pub contains_miss :
      (k : K) (es : List (Entry K M)) → find dec k es ≡ none → contains dec k es ≡ false
  unfolding find contains
  contains_miss k [] h = refl
  contains_miss k (e ∷ es) h = ground (arith, contains_miss k es)

  pub contains_hit :
      (k : K) (es : List (Entry K M)) {e : Entry K M}
      → find dec k es ≡ some e
      → contains dec k es ≡ true
  unfolding find contains
  contains_hit k [] h = cc
  contains_hit k (x ∷ es) {e} h = ground (arith, contains_hit k es {e = e})

  pub find-key :
      (k : K) (es : List (Entry K M)) (e : Entry K M) → find dec k es ≡ some e → e.key ≡ k
  unfolding find
  find-key k [] e h = cc
  find-key k (x ∷ es) e h = ground (arith, find-key k es e)

  pub find-append_none :
      (k : K) (xs ys : List (Entry K M))
      → find dec k xs ≡ none
      → find dec k (xs ++ ys) ≡ find dec k ys
  unfolding find
  find-append_none k [] ys h = refl
  find-append_none k (x ∷ xs) ys h = ground (arith, find-append_none k xs ys)

  pub find-append_some :
      (k : K) (xs ys : List (Entry K M)) (e : Entry K M)
      → find dec k xs ≡ some e
      → find dec k (xs ++ ys) ≡ some e
  unfolding find
  find-append_some k [] ys e h = cc
  find-append_some k (x ∷ xs) ys e h = ground (arith, find-append_some k xs ys e)

  -- A key that a longer list lacks is lacking in both parts.
  pub find-append_left :
      (k : K) (xs ys : List (Entry K M)) → find dec k (xs ++ ys) ≡ none → find dec k xs ≡ none
  unfolding find
  find-append_left k [] ys h = refl
  find-append_left k (x ∷ xs) ys h = ground (arith, find-append_left k xs ys)

  pub find-append_right :
      (k : K) (xs ys : List (Entry K M)) → find dec k (xs ++ ys) ≡ none → find dec k ys ≡ none
  unfolding find
  find-append_right k [] ys h = h
  find-append_right k (x ∷ xs) ys h = ground (arith, find-append_right k xs ys)

  find-single_ne : (k : K) (e : Entry K M) → k ≢ e.key → find dec k (e ∷ []) ≡ none
  unfolding find
  find-single_ne k e ne = ground arith

  pub find-single : (k : K) (e : Entry K M) → e.key ≡ k → find dec k (e ∷ []) ≡ some e
  unfolding find
  find-single k e p = ground arith

  pub find-without_ne :
      (k q : K) (es : List (Entry K M)) → q ≢ k → find dec q (without dec k es) ≡ find dec q es
  unfolding find without
  find-without_ne k q [] h = refl
  find-without_ne k q (e ∷ es) h = ground (arith, find-without_ne k q es)

  pub find-without_self :
      (k : K) (es : List (Entry K M)) → Distinct dec es → find dec k (without dec k es) ≡ none
  unfolding find without
  find-without_self k [] d = refl
  find-without_self k (e ∷ es) d = ground (arith, find-without_self k es d.1)

  -- Removing entries finds nothing new.
  pub find-without_absent :
      (k q : K) (es : List (Entry K M))
      → find dec q es ≡ none
      → find dec q (without dec k es) ≡ none
  unfolding find without
  find-without_absent k q [] h = refl
  find-without_absent k q (e ∷ es) h = ground (arith, find-without_absent k q es)

  pub without-miss : (k : K) (es : List (Entry K M)) → find dec k es ≡ none → without dec k es ≡ es
  unfolding find without
  without-miss k [] h = refl
  without-miss k (e ∷ es) h = ground (arith, without-miss k es)

  pub without-append :
      (k : K) (xs ys : List (Entry K M))
      → find dec k xs ≡ none
      → without dec k (xs ++ ys) ≡ xs ++ without dec k ys
  unfolding find without
  without-append k [] ys h = refl
  without-append k (x ∷ xs) ys h = ground (arith, without-append k xs ys)

  pub length-without :
      (k : K) (es : List (Entry K M)) (e : Entry K M)
      → find dec k es ≡ some e
      → length (without dec k es) + 1 ≡ length es
  unfolding find without
  length-without k [] e h = cc
  length-without k (x ∷ es) e h = ground (arith, length-without k es e)

  pub total-without :
      (k : K) (es : List (Entry K M)) (e : Entry K M)
      → find dec k es ≡ some e
      → total (without dec k es) + e.size ≡ total es
  unfolding find without
  total-without k [] e h = cc
  total-without k (x ∷ es) e h = ground (arith, total-without k es e)

  pub Distinct-without :
      (k : K) (es : List (Entry K M)) → Distinct dec es → Distinct dec (without dec k es)
  unfolding without
  Distinct-without k [] d = tt
  Distinct-without k (e ∷ es) d = elim (dec e.key k) [
    | yes p ↦ rw (if_pos _ p) d.1
    | no p ↦ rw (if_neg _ p) (find-without_absent k e.key es d.0, Distinct-without k es d.1)
  ]

  pub Distinct-snoc :
      (es : List (Entry K M)) (e : Entry K M)
      → Distinct dec es
      → find dec e.key es ≡ none
      → Distinct dec (es ++ e ∷ [])
  unfolding find
  Distinct-snoc [] e d h = (refl, tt)
  Distinct-snoc (x ∷ es) e d h = (
    find-append_none x.key es (e ∷ []) d.0 ∙ find-single_ne x.key e (ground arith),
    Distinct-snoc es e d.1 (ground arith),
  )

  pub Distinct-append_right : (xs ys : List (Entry K M)) → Distinct dec (xs ++ ys) → Distinct dec ys
  Distinct-append_right [] ys d = d
  Distinct-append_right (x ∷ xs) ys d = Distinct-append_right xs ys d.1

  module _ (P : Entry K M → Type 0) where
    pub All-without : (k : K) (es : List (Entry K M)) → All P es → All P (without dec k es)
    unfolding without
    All-without k [] h = tt
    All-without k (e ∷ es) h = elim (dec e.key k) [
      | yes p ↦ rw (if_pos _ p) h.1
      | no p ↦ rw (if_neg _ p) (h.0, All-without k es h.1)
    ]

    pub All-find :
        (k : K) (es : List (Entry K M)) (e : Entry K M) → All P es → find dec k es ≡ some e → P e
    unfolding find
    All-find k [] e h found = cc
    All-find k (x ∷ es) e h found = elim (dec x.key k) [
      | yes p ↦ subst P (ground arith) h.0
      | no p ↦ All-find k es e h.1 (ground arith)
    ]
