-- ===== src/Plugin/Realloc/Laws.antt =====
-- What `cabi_realloc` of native/javex_plugin/src/lib.rs keeps.
use javex.Base.{ℕ, ◌<◌, ◌+◌, ◌≤◌, ◌≡◌, ◌≢◌, ◌⊎◌, inl, inr, sym, ap, ◌∙◌, min, length, arith}
use javex.Plugin.Memory.{Bytes, read, write, copy_nonoverlapping}
use javex.Plugin.Memory.Laws.{read-cong, read-write, read-write_apart, length-read}
use javex.Plugin.Realloc.{Allocator}

-- The block from `q` on, of `count` bytes, and one of `size` bytes from `new` on share no byte.
abbrev pub IsApart : ℕ → ℕ → ℕ → ℕ → Type 0
IsApart q count new size = (q + count ≤ new) ⊎ (new + size ≤ q)

-- A copy is read back, and not seen elsewhere.
copied :
    (m : Bytes) (ptr new room q count : ℕ)
    → IsApart q count new room
    → (read (copy_nonoverlapping m ptr new room) new room ≡ read m ptr room)
      × (read (copy_nonoverlapping m ptr new room) q count ≡ read m q count)
unfolding copy_nonoverlapping
copied m ptr new room q count apart =
    let size = length-read m ptr room in
    (
      ap (λ n. read (write m new (read m ptr room)) new n) (sym size)
          ∙ read-write m new (read m ptr room),
      read-write_apart m new (read m ptr room) q count (fit size apart),
    )
  where
    fit :
        length (read m ptr room) ≡ room
        → IsApart q count new room
        → (q + count ≤ new) ⊎ (new + length (read m ptr room) ≤ q)
    fit size (inl before) = inl before
    fit size (inr after) = inr (omega (arith, size, after))

-- What the documentation of the allocator says of the blocks that were given out and not given back: it
-- writes to none of them, a new block lies apart from them, and a block that is given back is no longer
-- one of them.
pub record IsAllocator (allocator : Allocator) : Type 1 where
  pub Live : allocator.State → ℕ → ℕ → Type 0
  pub alloc_kept :
      (s : allocator.State) (m : Bytes) (size align q count : ℕ)
      → Live s q count
      → Live (allocator.alloc (s, m) size align).0.0 q count
        × ((a : ℕ) → q ≤ a → a < q + count → (allocator.alloc (s, m) size align).0.1 a ≡ m a)
  pub alloc_apart :
      (s : allocator.State) (m : Bytes) (size align q count : ℕ)
      → size ≢ 0
      → Live s q count
      → (allocator.alloc (s, m) size align).1 ≢ 0
      → IsApart q count (allocator.alloc (s, m) size align).1 size
  pub alloc_live :
      (s : allocator.State) (m : Bytes) (size align : ℕ)
      → size ≢ 0
      → (allocator.alloc (s, m) size align).1 ≢ 0
      → Live (allocator.alloc (s, m) size align).0.0 (allocator.alloc (s, m) size align).1 size
  pub dealloc_kept :
      (s : allocator.State) (m : Bytes) (ptr old align q count : ℕ)
      → Live s ptr old
      → Live s q count
      → IsApart q count ptr old
      → Live (allocator.dealloc (s, m) ptr old align).0 q count
        × ((a : ℕ) → q ≤ a → a < q + count → (allocator.dealloc (s, m) ptr old align).1 a ≡ m a)

module _ (allocator : Allocator) where
  open allocator use {State, alloc, dealloc}

  -- What is to hold of a call with a new size that is not zero, and of another block.
  abbrev pub IsMoved :
      IsAllocator allocator → ℕ → ℕ → ℕ → Bytes → ℕ → ℕ → State × Bytes → ℕ → Type 0
  IsMoved documented ptr old size m q count (s', m') new =
      (read m' new (min old size) ≡ read m ptr (min old size))
      × documented.Live s' new size
      × documented.Live s' q count
      × (read m' q count ≡ read m q count)

  swap : (q count new size : ℕ) → IsApart q count new size → IsApart new size q count
  swap q count new size (inl before) = inr before
  swap q count new size (inr after) = inl after

  module _ (documented : IsAllocator allocator) (ptr old align size : ℕ) (s : State) (m : Bytes)
      (q count : ℕ) (some_size : size ≢ 0) (found : (alloc (s, m) size align).1 ≢ 0)
      (other : documented.Live s q count) where
    -- With an old block, which is copied and given back.
    moved :
        documented.Live s ptr old
        → IsApart q count ptr old
        → IsMoved documented ptr old size m q count
            (dealloc
              (
                (alloc (s, m) size align).0.0,
                copy_nonoverlapping
                    (alloc (s, m) size align).0.1
                    ptr
                    (alloc (s, m) size align).1
                    (min old size),
              )
              ptr
              old
              align)
            (alloc (s, m) size align).1
    moved live apart =
        let s1 = (alloc (s, m) size align).0.0 in
        let m1 = (alloc (s, m) size align).0.1 in
        let new = (alloc (s, m) size align).1 in
        let room = min old size in
        let m2 = copy_nonoverlapping m1 ptr new room in
        let m3 = (dealloc (s1, m2) ptr old align).1 in
        let mine = documented.alloc_kept s m size align ptr old live in
        let others = documented.alloc_kept s m size align q count other in
        let away = documented.alloc_apart s m size align q count some_size other found in
        let apart_old = documented.alloc_apart s m size align ptr old some_size live found in
        let fresh = documented.alloc_live s m size align some_size found in
        let copy = copied m1 ptr new room q count (narrow away) in
        let new_kept =
          documented.dealloc_kept s1 m2 ptr old align new size mine.0 fresh
            (swap ptr old new size apart_old) in
        let other_kept =
          documented.dealloc_kept s1 m2 ptr old align q count mine.0 others.0 apart in
        (
          read-cong m3 m2 new room (λ a low high. new_kept.1 a low (omega (arith, high)))
              ∙ copy.0
              ∙ read-cong m1 m ptr room (λ a low high. mine.1 a low (omega (arith, high))),
          new_kept.0,
          other_kept.0,
          read-cong m3 m2 q count other_kept.1 ∙ copy.1 ∙ read-cong m1 m q count others.1,
        )
      where
        narrow : {new : ℕ} → IsApart q count new size → IsApart q count new (min old size)
        narrow (inl before) = inl before
        narrow (inr after) = inr (omega (arith, after))
