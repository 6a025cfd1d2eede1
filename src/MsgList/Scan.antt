-- ===== src/MsgList/Scan.antt =====
-- The walk over a list whose last node has no next node, and rm_nbr_msg.
use s6_projet_reseau.Common.{
  ℕ, zero, suc, ◌+◌, ◌^◌, ◌<◌, ◌≡◌, refl, ap, ◌∙◌, arith, Bool, true, false, Option, none, some, [],
  ◌∷◌, ◌++◌, length, length-append, ne→not_==, ◌==◌, lt→ltb,
}
use s6_projet_reseau.Common.Run
use s6_projet_reseau.Common.Run.{Run, ok, Returns, returns}
use s6_projet_reseau.Store.{Ptr, null, NodeType, Heap}
use s6_projet_reseau.Store.Steps.{load-ok}
use s6_projet_reseau.Dllist.{Dllist}
use s6_projet_reseau.Dllist.Seg.{Items, first_of, Distinct, Seg}
use s6_projet_reseau.Dllist.Rep.{IsDllist, first_ne_null}
use s6_projet_reseau.Dllist.Removed.{Removed}
use s6_projet_reseau.Dllist.Remove.{dllist_remove-at}
use s6_projet_reseau.Shared.{Stored}
use s6_projet_reseau.MsgList.{int_next, scan, is_msg, rm_nbr_msg}

-- The test fails at the data of each element.
abbrev pub Misses : (Ptr → Run Bool) → Items → Type 0
Misses test [] = Unit
Misses test ((p, d) ∷ xs) = (test d ≡ ok false) × Misses test xs

-- The counter reaches `n`.
abbrev pub Counts : (ℕ → Run ℕ) → ℕ → Type 0
Counts next n = (j : ℕ) → j < n → next j ≡ ok (j + 1)

pub int_next-Counts : (n : ℕ) → n < 2 ^ 31 → Counts int_next n
unfolding int_next
int_next-Counts n small j lt = rw (lt→ltb (j + 1) (2 ^ 31) (omega arith)) refl

pub scan-hit :
    (h : Heap) (fuel : ℕ) (test : Ptr → Run Bool) (next : ℕ → Run ℕ) (t : NodeType) (before : Ptr)
    (xs : Items) (q e : Ptr) (ys : Items) (i : ℕ)
    → Seg h.cell t before (xs ++ ((q, e) ∷ ys)) null
    → Distinct (xs ++ ((q, e) ∷ ys))
    → Misses test xs
    → test e ≡ ok true
    → length xs < fuel
    → Counts next (i + length xs)
    → scan h fuel test next (first_of (xs ++ ((q, e) ∷ ys)) null) i ≡ ok (some (i + length xs))
unfolding scan
scan-hit h zero test next t before xs q e ys i s k miss hit lt counts = absurd (omega arith)
scan-hit h (suc fuel) test next t before [] q e ys i s k miss hit lt counts =
    rw (ne→not_== q null k.0, load-ok h q _ k.0 s.0, hit) (ap (λ n. ok (some n)) (omega arith))
scan-hit h (suc fuel) test next t before ((p, d) ∷ xs) q e ys i s k miss hit lt counts =
    rw (ne→not_== p null k.0, load-ok h p _ k.0 s.0, miss.0, counts i (omega arith))
      (scan-hit h fuel test next t p xs q e ys (i + 1) s.1 k.2 miss.1 hit (omega arith)
          (λ j lt. counts j (omega arith))
        ∙ ap (λ n. ok (some n)) (omega arith))

pub scan-miss :
    (h : Heap) (fuel : ℕ) (test : Ptr → Run Bool) (next : ℕ → Run ℕ) (t : NodeType) (before : Ptr)
    (xs : Items) (i : ℕ)
    → Seg h.cell t before xs null
    → Distinct xs
    → Misses test xs
    → length xs < fuel
    → Counts next (i + length xs)
    → scan h fuel test next (first_of xs null) i ≡ ok none
unfolding scan
scan-miss h zero test next t before xs i s k miss lt counts = absurd (omega arith)
scan-miss h (suc fuel) test next t before [] i s k miss lt counts = refl
scan-miss h (suc fuel) test next t before ((p, d) ∷ xs) i s k miss lt counts =
    rw (ne→not_== p null k.0, load-ok h p _ k.0 s.0, miss.0, counts i (omega arith))
      (scan-miss h fuel test next t p xs (i + 1) s.1 k.2 miss.1 (omega arith)
        (λ j lt. counts j (omega arith)))

-- The walk over a whole list, from its header.
module _ (h : Heap) (l : Dllist) (test : Ptr → Run Bool) (next : ℕ → Run ℕ) where
  pub scan_list-hit :
      (xs : Items) (q e : Ptr) (ys : Items)
      → (is : IsDllist h l (xs ++ ((q, e) ∷ ys))) → is.after ≡ null
      → Misses test xs
      → test e ≡ ok true
      → Counts next (length xs)
      → scan h (l.size + 1) test next l.first 0 ≡ ok (some (length xs))
  scan_list-hit xs q e ys is ends miss hit counts =
      ap (λ a. scan h (l.size + 1) test next a 0) is.first
      ∙ scan-hit h (l.size + 1) test next l.type is.before xs q e ys 0 (rw ends at is.chain)
          is.distinct miss hit (omega (arith, is.size, length-append {0} xs ((q, e) ∷ ys)))
          (λ j lt. counts j (omega arith))
      ∙ ap (λ n. ok (some n)) (omega arith)

  pub scan_list-miss :
      (xs : Items)
      → (is : IsDllist h l xs) → is.after ≡ null
      → Misses test xs
      → Counts next (length xs)
      → scan h (l.size + 1) test next l.first 0 ≡ ok none
  scan_list-miss xs is ends miss counts =
      ap (λ a. scan h (l.size + 1) test next a 0) is.first
      ∙ scan-miss h (l.size + 1) test next l.type is.before xs 0 (rw ends at is.chain) is.distinct
          miss (omega (arith, is.size)) (λ j lt. counts j (omega arith))

pub first_not_null :
    {h : Heap} {l : Dllist} (xs : Items) (q e : Ptr) (ys : Items)
    → IsDllist h l (xs ++ ((q, e) ∷ ys))
    → (l.first == null) ≡ false
first_not_null [] q e ys is = ne→not_== _ null (first_ne_null q e ys is)
first_not_null ((p, d) ∷ xs) q e ys is =
    ne→not_== _ null (first_ne_null p d (xs ++ ((q, e) ∷ ys)) is)

-- rm_nbr_msg on a list of fewer than 2 ^ 31 elements that holds a message of the sender with the nonce, and whose last node has no
-- next node: it removes the first such message, and leaves the others in their order.
pub rm_nbr_msg-first :
    (stored : Ptr → Option Stored) (id nonce : ℕ) (h : Heap) (l : Dllist) (xs : Items) (q e : Ptr)
    (ys : Items)
    → (is : IsDllist h l (xs ++ ((q, e) ∷ ys))) → is.after ≡ null
    → Misses (is_msg stored id nonce) xs
    → is_msg stored id nonce e ≡ ok true
    → length xs + suc (length ys) < 2 ^ 31
    → Returns
        (λ r. (r.0.0 ≡ true) × Removed h q e (xs ++ ((q, e) ∷ ys)) (xs ++ ys) ((e, r.0.1), r.1))
        (rm_nbr_msg stored id nonce l h)
unfolding rm_nbr_msg
rm_nbr_msg-first stored id nonce h l xs q e ys is ends miss hit small =
    rw
      (
        first_not_null xs q e ys is,
        scan_list-hit h l (is_msg stored id nonce) int_next xs q e ys is ends miss hit
            (int_next-Counts (length xs) (omega arith)),
      )
      (Run.bind (dllist_remove-at h l xs q e ys is small)
        λ r p. returns (refl, record { data_is = refl; leaves = p.leaves; freed = p.freed }))

-- rm_nbr_msg on a list of fewer than 2 ^ 31 elements that holds no such message, and whose last node has no next node, changes
-- nothing.
pub rm_nbr_msg-none :
    (stored : Ptr → Option Stored) (id nonce : ℕ) (h : Heap) (l : Dllist) (xs : Items)
    → (is : IsDllist h l xs) → is.after ≡ null
    → Misses (is_msg stored id nonce) xs
    → length xs < 2 ^ 31
    → rm_nbr_msg stored id nonce l h ≡ ok ((false, l), h)
unfolding rm_nbr_msg
rm_nbr_msg-none stored id nonce h l [] is ends miss small = rw is.first refl
rm_nbr_msg-none stored id nonce h l ((p, d) ∷ xs) is ends miss small =
    rw
      (
        first_not_null [] p d xs is,
        scan_list-miss h l (is_msg stored id nonce) int_next ((p, d) ∷ xs) is ends miss
            (int_next-Counts (suc (length xs)) small),
      )
      refl
