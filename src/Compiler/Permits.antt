-- ===== src/Compiler/Permits.antt =====
-- At most sixteen compilations run at once
-- (native/javex_nif/src/compiler.rs).
use javex.Base.{ℕ, suc, ◌≤◌, ◌≡◌, refl, ◌∙◌, none, some, arith, wrapping_sub-eq}
use javex.Compiler.{acquire, release}

-- The threads that compile, and the counter. A thread that gets no permit stays as it is.
pub record Permits : Type 0 where
  pub holders : ℕ
  pub count : ℕ

pub data Step : Permits → Permits → Type 0 where
  acquires :
      (s : Permits) (n : ℕ)
      → acquire s.count ≡ some n
      → Step s (record { holders = suc s.holders; count = n })
  is_busy : (s : Permits) → acquire s.count ≡ none → Step s s
  releases :
      (holders count : ℕ)
      → Step
          (record { holders = suc holders; count = count })
          (record { holders = holders; count = release count })

pub data Reach (s : Permits) : Permits → Type 0 where
  here : Reach s s
  later : {t u : Permits} → Reach s t → Step t u → Reach s u

-- The counter says how many threads compile, and these are sixteen at most.
pub record Counts (s : Permits) : Type 0 where
  pub exact : s.count ≡ s.holders
  pub few : s.holders ≤ 16

abbrev pub idle : Permits
idle = record { holders = 0; count = 0 }

Step-Counts : (s t : Permits) → Step s t → Counts s → Counts t
unfolding acquire release
Step-Counts s _ (acquires s' n got) c = ground (arith, c.exact, c.few, got)
Step-Counts s _ (is_busy s' none_left) c = c
Step-Counts _ _ (releases holders count) c = record {
  exact =
      wrapping_sub-eq count 1 (omega (arith, c.exact)) (omega (arith, c.exact, c.few))
      ∙ omega (arith, c.exact);
  few = omega (arith, c.few);
}

-- However the threads interleave, at most sixteen of them compile at once, and the counter is exact.
pub idle-Reach-Counts : (s : Permits) → Reach idle s → Counts s
idle-Reach-Counts _ here = record { exact = refl; few = omega arith }
idle-Reach-Counts u (later {t = t} r s) = Step-Counts t u s (idle-Reach-Counts t r)
