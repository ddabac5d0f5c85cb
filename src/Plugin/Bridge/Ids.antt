-- ===== src/Plugin/Bridge/Ids.antt =====
-- Lists of ids, as the keys of `pending` in native/javex_plugin/src/bridge.js.
use javex.Base.{ℕ, ◌≢◌, Bool-cases, inl, inr, List, [], ◌∷◌, All, ◌==◌}
use javex.Plugin.Bridge.{without}

abbrev pub Distinct : List ℕ → Type 0
Distinct [] = Unit {0}
Distinct (x ∷ xs) = All (λ y. y ≢ x) xs × Distinct xs

pub All-map : {P Q : ℕ → Type 0} (xs : List ℕ) → ((x : ℕ) → P x → Q x) → All P xs → All Q xs
All-map [] f all = tt
All-map (x ∷ xs) f (here, all) = (f x here, All-map xs f all)

pub All-without : (P : ℕ → Type 0) (id : ℕ) (xs : List ℕ) → All P xs → All P (without id xs)
All-without P id [] all = tt
All-without P id (x ∷ xs) (here, all) = elim (Bool-cases (x == id)) [
  | inl same ↦ rw same all
  | inr other ↦ rw other (here, All-without P id xs all)
]

pub Distinct-without : (id : ℕ) (xs : List ℕ) → Distinct xs → Distinct (without id xs)
Distinct-without id [] d = tt
Distinct-without id (x ∷ xs) (apart, d) = elim (Bool-cases (x == id)) [
  | inl same ↦ rw same d
  | inr other ↦ rw other (All-without (λ y. y ≢ x) id xs apart, Distinct-without id xs d)
]
