-- ===== src/Wire/Sbuff.antt =====
-- The byte buffer sbuff_t of src/types.h and src/types.c. An allocation succeeds, so an object has
-- fewer than 2 ^ 63 bytes and the size_t arithmetic on its size does not wrap.
pub mod Reserve
pub mod Append
use s6_projet_reseau.Common.{
  ℕ, zero, suc, ◌+◌, ◌-◌, ◌*◌, ◌≤◌, ◌<◌, ◌≡◌, List, ◌++◌, length, take, drop, tabulate, ltb, leb,
  if◌then◌else◌,
}
use s6_projet_reseau.Common.Run.{Run, ok, fault, stuck}

abbrev pub sbuff_init_size : ℕ
sbuff_init_size = 64

-- The field data is `block`: the bytes of the object from the pointer to its end.
pub record Sbuff : Type 0 where
  pub size : ℕ
  pub next : ℕ
  pub real_size : ℕ
  pub block : List ℕ

-- `junk i` is what a fresh object holds at offset `i`.
unfoldable pub new_sbuff : (ℕ → ℕ) → Sbuff
new_sbuff junk = record {
  size = sbuff_init_size;
  next = 0;
  real_size = 0;
  block = tabulate sbuff_init_size 0 junk;
}

-- The object may be longer than `data_len`.
unfoldable pub new_dsbuff : List ℕ → ℕ → Sbuff
new_dsbuff block data_len = record {
  size = data_len;
  next = 0;
  real_size = data_len;
  block = block;
}

-- realloc keeps the old bytes, up to the new size, and leaves the others as they are.
unfoldable pub realloc : (ℕ → ℕ) → List ℕ → ℕ → List ℕ
realloc junk block n = take n (block ++ tabulate (n - length block) (length block) junk)

unfoldable pub grow : (ℕ → ℕ) → Sbuff → Sbuff
unfolding realloc
grow junk b = record b { size = b.size * 2; block = realloc junk b.block (b.size * 2) }

-- `while ((b->next + bytes) > b->size)`
reserve_loop : (ℕ → ℕ) → ℕ → Sbuff → ℕ → Run Sbuff
reserve_loop junk zero b bytes = stuck
reserve_loop junk (suc fuel) b bytes =
    let again = reserve_loop junk fuel (grow junk b) bytes in
    if ltb b.size (b.next + bytes) then again else ok b

-- Each round doubles a size that is not 0, so these rounds are enough.
unfoldable pub sbuff_reserve_space : (ℕ → ℕ) → Sbuff → ℕ → Run Sbuff
unfolding reserve_loop grow
sbuff_reserve_space junk b bytes = reserve_loop junk (b.next + bytes + 1) b bytes

-- memcpy of `bs` to `b->data + b->next`, and the two increments that follow it.
unfoldable pub put_bytes : List ℕ → Sbuff → Run Sbuff
put_bytes bs b =
    if leb (b.next + length bs) (length b.block)
    then ok (record b {
      next = b.next + length bs;
      real_size = b.real_size + length bs;
      block = take b.next b.block ++ (bs ++ drop (b.next + length bs) b.block);
    })
    else fault

-- memcpy of `n` bytes from `b->data + b->next`, and the increment that follows it.
unfoldable pub get_bytes : ℕ → Sbuff → Run (List ℕ × Sbuff)
get_bytes n b =
    if leb (b.next + n) (length b.block)
    then ok (take n (drop b.next b.block), record b { next = b.next + n })
    else fault

-- A buffer that is being written.
pub record IsSbuff (b : Sbuff) : Type 0 where
  pub sized : length b.block ≡ b.size
  pub nonempty : 0 < b.size
  pub fits : b.next ≤ b.size
  pub real : b.real_size ≡ b.next

-- What has been written.
unfoldable pub written : Sbuff → List ℕ
written b = take b.next b.block
