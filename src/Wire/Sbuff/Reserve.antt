-- ===== src/Wire/Sbuff/Reserve.antt =====
-- sbuff_reserve_space: it ends, keeps what was written, and makes room.
use s6_projet_reseau.Common.{
  ℕ, zero, suc, ◌+◌, ◌-◌, ◌*◌, ◌≤◌, ◌<◌, ◌≡◌, refl, ◌⊎◌, inl, inr, List, arith, length,
  length-append, length-tabulate, length-take, take, tabulate, take-append_le, take-take,
  Bool-cases, ltb, ltb→lt, ◌∙◌,
}
use s6_projet_reseau.Common.Run.{Returns, returns, mono}
use s6_projet_reseau.Wire.Sbuff.{
  Sbuff, IsSbuff, written, realloc, grow, reserve_loop, sbuff_reserve_space,
}

-- What making room does to a buffer.
pub record Reserved (b : Sbuff) (bytes : ℕ) (b' : Sbuff) : Type 0 where
  pub valid : IsSbuff b'
  pub kept : written b' ≡ written b
  pub same : b'.next ≡ b.next
  pub room : b'.next + bytes ≤ b'.size
  -- The size is unchanged, or less than twice what is needed.
  pub tight : (b'.size ≡ b.size) ⊎ (b'.size < 2 * (b.next + bytes))

module _ (junk : ℕ → ℕ) where
  length-realloc : (block : List ℕ) (n : ℕ) → length block ≤ n → length (realloc junk block n) ≡ n
  unfolding realloc
  length-realloc block n h = length-take n _ (
      omega (
        arith,
        length-append block (tabulate (n - length block) (length block) junk),
        length-tabulate (n - length block) (length block) junk,
      ))

  take-realloc :
      (k : ℕ) (block : List ℕ) (n : ℕ)
      → k ≤ length block
      → k ≤ n
      → take k (realloc junk block n) ≡ take k block
  unfolding realloc
  take-realloc k block n h h' = rw (take-take k n _ h') (take-append_le k block _ h)

  grow-IsSbuff : (b : Sbuff) → IsSbuff b → IsSbuff (grow junk b)
  unfolding grow
  grow-IsSbuff b v = record {
    sized = length-realloc b.block (b.size * 2) (omega (arith, v.sized));
    nonempty = omega arith;
    fits = omega arith;
    real = v.real;
  }

  written-grow : (b : Sbuff) → IsSbuff b → written (grow junk b) ≡ written b
  unfolding grow written
  written-grow b v = take-realloc b.next b.block (b.size * 2) (omega arith) (omega arith)

  Reserved-grow :
      (b : Sbuff) (bytes : ℕ)
      → IsSbuff b
      → b.size < b.next + bytes
      → (b' : Sbuff) → Reserved (grow junk b) bytes b'
      → Reserved b bytes b'
  Reserved-grow b bytes v h b' r = record {
    valid = r.valid;
    kept = r.kept ∙ written-grow b v;
    same = unfold grow in r.same;
    room = r.room;
    tight = unfold grow in ground (arith, r.tight);
  }

  reserve_loop-Reserved :
      (fuel : ℕ) (b : Sbuff) (bytes : ℕ)
      → IsSbuff b
      → b.next + bytes - b.size < fuel
      → Returns (Reserved b bytes) (reserve_loop junk fuel b bytes)
  unfolding reserve_loop
  reserve_loop-Reserved zero b bytes v h = absurd (omega arith)
  reserve_loop-Reserved (suc fuel) b bytes v h = elim (Bool-cases (ltb b.size (b.next + bytes))) [
    | inl more ↦
        let lt = ltb→lt _ _ more in
        rw more (
          mono
            (reserve_loop-Reserved fuel (grow junk b) bytes (grow-IsSbuff b v)
              (unfold grow in omega arith))
            (Reserved-grow b bytes v lt))
    | inr enough ↦ rw enough (
        returns
          (record { valid = v; kept = refl; same = refl; room = ground arith; tight = inl refl }))
  ]

-- For any valid buffer the loop of sbuff_reserve_space ends; the written bytes and the position are
-- kept, `bytes` more bytes fit, and the size is the old one or less than twice what is needed.
pub sbuff_reserve_space-Reserved :
    (junk : ℕ → ℕ) (b : Sbuff) (bytes : ℕ)
    → IsSbuff b
    → Returns (Reserved b bytes) (sbuff_reserve_space junk b bytes)
unfolding sbuff_reserve_space
sbuff_reserve_space-Reserved junk b bytes v =
    reserve_loop-Reserved junk (b.next + bytes + 1) b bytes v (omega arith)
