-- ===== src/Output/Quota.antt =====
-- One write against the quota (native/javex_nif/src/output.rs, `append` and `check_write`).
use javex.Base.{
  ℕ, ◌-◌, ◌≤◌, ◌<◌, ◌≡◌, refl, ◌∙◌, ap, ◌≢◌, ◌||◌, true, false, List, [], ◌++◌, append-nil, ap₂,
  take_capped, arith, length, take, ltb, ok, is_err, discard, is_err-map_err, is_err-discard,
  usize_mod, wrapping_sub, wrapping_sub-eq, length-append, length-take, take-append,
  take_of_length-le, min, ==_refl, max,
}
use javex.Output.{Output, Heap, State, trap, store, exceeded, contents, append, write, check_write}

-- What a stream must show after `log` was offered to it: the part that fits, and a flag that tells
-- whether anything was cut off.
pub record Tracks (o : Output) (h : Heap) (log : List ℕ) : Type 0 where
  pub word : o.capacity < usize_mod
  pub kept : contents o h ≡ take o.capacity log
  pub flagged : exceeded o h ≡ ltb o.capacity (length log)

-- How much of an offer is kept.
abbrev pub count : Output → List ℕ → Heap → ℕ
count o bytes h = min (o.capacity - length (contents o h)) (length bytes)

cell-store : (h : Heap) (p : ℕ) (s : State) → (store h p s).cell p ≡ s
unfolding store
cell-store h p s = rw (==_refl p)

cell-store_ne : (h : Heap) (p q : ℕ) (s : State) → q ≢ p → (store h p s).cell q ≡ h.cell q
unfolding store
cell-store_ne h p q s ne = ground arith

module _ (o : Output) (bytes : List ℕ) (h : Heap) {log : List ℕ} (t : Tracks o h log) where
  length-contents : length (contents o h) ≡ min o.capacity (length log)
  length-contents = ap length t.kept ∙ length-take o.capacity log

  available : wrapping_sub o.capacity (length (contents o h)) ≡ o.capacity - length (contents o h)
  available =
      wrapping_sub-eq o.capacity (length (contents o h)) t.word (omega (arith, length-contents))

  contents-append : contents o (append o bytes h).0 ≡ contents o h ++ take (count o bytes h) bytes
  unfolding append contents store
  contents-append = ground (arith, available)

  exceeded-append :
      exceeded o (append o bytes h).0 ≡ (exceeded o h || ltb (count o bytes h) (length bytes))
  unfolding append contents store exceeded
  exceeded-append = ground (arith, available)

  -- A write moves the stream to the longer log, whether it succeeds or fails.
  pub append-Tracks : Tracks o (append o bytes h).0 (log ++ bytes)
  append-Tracks = record {
    word = t.word;
    kept =
        contents-append
        ∙ rw (take-append o.capacity log bytes, take_capped)
            (ap₂ ◌++◌ t.kept (ap (λ n. take n bytes) room));
    flagged =
        rw (exceeded-append, t.flagged, length-contents) (ground (arith, length-append log bytes));
  }
    where
      room : o.capacity - length (contents o h) ≡ o.capacity - length log
      room = omega (arith, length-contents)

  is_err-append : is_err (append o bytes h).1 ≡ ltb (count o bytes h) (length bytes)
  unfolding append contents
  is_err-append = rw available (ground (arith, available))

  -- The result tells the same as the flag, but for an empty write, which always succeeds.
  pub is_err-write :
      0 < length bytes → is_err (write o bytes h).1 ≡ ltb o.capacity (length (log ++ bytes))
  unfolding write
  is_err-write some_bytes =
      is_err-map_err trap (discard (append o bytes h).1)
      ∙ is_err-discard (append o bytes h).1
      ∙ is_err-append
      ∙ rw (length-append log bytes, length-contents) (ground arith)

  -- A write to another stream leaves this one alone.
  pub append-Tracks_ne : (o' : Output) → o.state ≢ o'.state → Tracks o (append o' bytes h).0 log
  unfolding append contents exceeded store
  append-Tracks_ne o' ne = record {
    word = t.word;
    kept = ground (arith, t.kept);
    flagged = ground (arith, t.flagged);
  }

-- What `check_write` offers: all that is left, or one byte of a full stream.
check_write-eq :
    (o : Output) (h : Heap) {log : List ℕ}
    → Tracks o h log
    → check_write o h ≡ ok (max (o.capacity - length (contents o h)) 1)
unfolding check_write contents
check_write-eq o h t = rw (available o [] h t)

write-append : (o : Output) (bytes : List ℕ) (h : Heap) → (write o bytes h).0 ≡ (append o bytes h).0
unfolding write
write-append o bytes h = refl

module _ (o : Output) (h : Heap) (log bytes : List ℕ) (t : Tracks o h log) where
  -- On a stream that tracks its log, while there is room, a write of some bytes, and of no more than
  -- `check_write` offers, succeeds and is kept whole.
  pub check_write_room :
      {n : ℕ}
      → check_write o h ≡ ok n
      → 0 < length bytes
      → length bytes ≤ n
      → length log < o.capacity
      → (is_err (write o bytes h).1 ≡ false)
        × (contents o (write o bytes h).0 ≡ contents o h ++ bytes)
        × (exceeded o (write o bytes h).0 ≡ false)
  check_write_room {n} offer some_bytes fits room = (
    is_err-write o bytes h t some_bytes ∙ within,
    rw (write-append, contents-append o bytes h t, take_capped)
        (ap (◌++◌ (contents o h)) (take_of_length-le _ bytes small)),
    rw (write-append, exceeded-append o bytes h t, t.flagged, length-contents o bytes h t)
        (ground (arith, small, length-contents o bytes h t)),
  )
    where
      small : length bytes ≤ o.capacity - length (contents o h)
      small = ground (arith, check_write-eq o h t, length-contents o bytes h t)

      within : ltb o.capacity (length (log ++ bytes)) ≡ false
      within = ground (arith, small, length-append log bytes, length-contents o bytes h t)

  -- On a stream that tracks its log, once it is full, `check_write` offers one byte, and a write of
  -- some bytes fails, sets the flag and leaves the contents as they are.
  pub check_write_full :
      o.capacity ≤ length log
      → 0 < length bytes
      → (check_write o h ≡ ok 1)
        × (is_err (write o bytes h).1 ≡ true)
        × (exceeded o (write o bytes h).0 ≡ true)
        × (contents o (write o bytes h).0 ≡ contents o h)
  check_write_full full some_bytes = (
    check_write-eq o h t ∙ ap ok (omega (arith, length-contents o bytes h t)),
    is_err-write o bytes h t some_bytes ∙ over,
    rw write-append ((append-Tracks o bytes h t).flagged ∙ over),
    rw (write-append, contents-append o bytes h t, nothing) (append-nil (contents o h)),
  )
    where
      over : ltb o.capacity (length (log ++ bytes)) ≡ true
      over = ground (arith, length-append log bytes)

      nothing : take (count o bytes h) bytes ≡ []
      nothing = rw take_capped (
          let e : o.capacity - length (contents o h) ≡ 0 =
            omega (arith, length-contents o bytes h t) in
          rw e)
