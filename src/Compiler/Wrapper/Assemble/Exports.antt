-- ===== src/Compiler/Wrapper/Assemble/Exports.antt =====
-- Lists of exports, as `wrapper` of native/javex_nif/src/compiler.rs searches and changes them.
use javex.Base.{
  ℕ, ◌≡◌, refl, sym, ap, ◌∙◌, subst, false, Bool-cases, none, some, inl, inr, List, [], ◌∷◌, ◌++◌,
  All, String, str_eq, eq_iff, ◌==◌, if◌then◌else◌, arith,
}
use javex.Compiler.Wrapper.Assemble.{ExportItem, Export, Walrus, find_export}

module _ {Func Memory : Type 0} where
  -- Without the exports of an id.
  abbrev pub without : ℕ → List (Export Func Memory) → List (Export Func Memory)
  without id [] = []
  without id (x ∷ exports) = if x.id == id then without id exports else x ∷ without id exports

  -- What is exported under a name.
  abbrev pub named : String → List (Export Func Memory) → List (ExportItem Func Memory)
  named name [] = []
  named name (x ∷ exports) =
      if str_eq x.name name then x.item ∷ named name exports else named name exports

  -- What is exported, without the ids.
  abbrev pub entries : List (Export Func Memory) → List (String × ExportItem Func Memory)
  entries [] = []
  entries (x ∷ exports) = (x.name, x.item) ∷ entries exports

  -- No two exports share a name or an id.
  abbrev pub IsDistinct : List (Export Func Memory) → Type 0
  IsDistinct [] = Unit {0}
  IsDistinct (x ∷ exports) =
      All (λ y. str_eq y.name x.name ≡ false) exports
      × All (λ y. (y.id == x.id) ≡ false) exports
      × IsDistinct exports

  pub named-append :
      (name : String) (xs ys : List (Export Func Memory))
      → named name (xs ++ ys) ≡ named name xs ++ named name ys
  named-append name [] ys = refl
  named-append name (x ∷ xs) ys = ground (arith, named-append name xs ys)

module _ (walrus : Walrus) where
  open walrus use {Module, Func, Memory}

  abbrev Exports : Type 0
  Exports = List (Export Func Memory)

  -- What is found has what every export has.
  find_export-All :
      (P : Export Func Memory → Type 0) (name : String) (xs : Exports) (x : Export Func Memory)
      → All P xs
      → find_export walrus name xs ≡ some x
      → P x
  unfolding find_export
  find_export-All P name [] x all h = cc
  find_export-All P name (y ∷ xs) x (here, all) h = elim (Bool-cases (str_eq y.name name)) [
    | inl found ↦ subst P (ground (arith, h, found)) here
    | inr on ↦ find_export-All P name xs x all (ground (arith, h, on))
  ]

  without_absent : (id : ℕ) (xs : Exports) → All (λ y. (y.id == id) ≡ false) xs → without id xs ≡ xs
  without_absent id [] none_here = refl
  without_absent id (x ∷ xs) (apart, rest) =
      rw apart (ap (λ ys. x ∷ ys) (without_absent id xs rest))

  named_absent :
      (name : String) (xs : Exports) → All (λ y. str_eq y.name name ≡ false) xs → named name xs ≡ []
  named_absent name [] none_here = refl
  named_absent name (x ∷ xs) (apart, rest) = rw apart (named_absent name xs rest)

  -- The export of a name is gone with its id, and no other.
  pub without_found :
      (name : String) (xs : Exports) (x : Export Func Memory)
      → IsDistinct xs
      → find_export walrus name xs ≡ some x
      → (named name (without x.id xs) ≡ [])
        × ((n : String) → str_eq name n ≡ false → named n (without x.id xs) ≡ named n xs)
  unfolding find_export
  without_found name [] x d h = cc
  without_found name (y ∷ xs) x (names, ids, d) h = elim (Bool-cases (str_eq y.name name)) [
    | inl found ↦
        let same : y ≡ x = ground (arith, h, found) in
        let is_name : y.name ≡ name = (eq_iff y.name name).0 found in
        let whole : without x.id (y ∷ xs) ≡ xs =
          subst (λ z. without z.id (y ∷ xs) ≡ xs) same
            (ground (arith, without_absent y.id xs ids)) in
        (
          ap (named name) whole
              ∙ named_absent name xs
                  (subst (λ s. All (λ z. str_eq z.name s ≡ false) xs) is_name names),
          λ n other_name.
              ap (named n) whole
              ∙ sym (ground (arith, subst (λ s. str_eq s n ≡ false) (sym is_name) other_name)),
        )
    | inr on ↦
        let found : find_export walrus name xs ≡ some x = ground (arith, h, on) in
        let (gone, kept) = without_found name xs x d found in
        let ids_apart : (x.id == y.id) ≡ false =
          find_export-All (λ z. (z.id == y.id) ≡ false) name xs x ids found in
        let stays : without x.id (y ∷ xs) ≡ y ∷ without x.id xs = ground (arith, ids_apart) in
        (
          ap (named name) stays ∙ ground (arith, on, gone),
          λ n other_name. ap (named n) stays ∙ ground (arith, kept n other_name),
        )
  ]

  pub not_found :
      (name : String) (xs : Exports) → find_export walrus name xs ≡ none → named name xs ≡ []
  unfolding find_export
  not_found name [] h = refl
  not_found name (x ∷ xs) h = elim (Bool-cases (str_eq x.name name)) [
    | inl found ↦ absurd (ground (arith, h, found))
    | inr on ↦ ground (arith, on, not_found name xs (ground (arith, h, on)))
  ]

  -- What is found is the one export of its name.
  pub found_named :
      (name : String) (xs : Exports) (x : Export Func Memory)
      → IsDistinct xs
      → find_export walrus name xs ≡ some x
      → named name xs ≡ x.item ∷ []
  unfolding find_export
  found_named name [] x d h = cc
  found_named name (y ∷ xs) x (names, ids, d) h = elim (Bool-cases (str_eq y.name name)) [
    | inl found ↦
        let same : y ≡ x = ground (arith, h, found) in
        let is_name : y.name ≡ name = (eq_iff y.name name).0 found in
        let only : named name xs ≡ [] =
          named_absent name xs (subst (λ s. All (λ z. str_eq z.name s ≡ false) xs) is_name names) in
        rw (found, only) (ap (λ z. z.item ∷ []) same)
    | inr on ↦ rw on (found_named name xs x d (ground (arith, h, on)))
  ]
