-- ===== src/Dllist/Remove.antt =====
-- dllist_remove.
use s6_projet_reseau.Common.{
  suc, ◌+◌, ◌^◌, ◌<◌, ◌≡◌, ap, ◌∙◌, arith, false, [], ◌∷◌, ◌++◌, append-nil, length, length-append,
  ne→not_==,
}
use s6_projet_reseau.Common.Run.{ok, Returns, returns}
use s6_projet_reseau.Store.{Ptr, null, Heap}
use s6_projet_reseau.Dllist.{Dllist, walk, dllist_is_empty, dllist_remove}
use s6_projet_reseau.Dllist.Seg.{Items}
use s6_projet_reseau.Dllist.Rep.{IsDllist}
use s6_projet_reseau.Dllist.Removed.{not_empty, Removed}
use s6_projet_reseau.Dllist.PopFront.{dllist_pop_front-cons}
use s6_projet_reseau.Dllist.Pop.{dllist_pop_back-snoc}
use s6_projet_reseau.Dllist.Get.{walk-address_at, no_wrap, is_inside, is_end, not_minus_pred}
use s6_projet_reseau.Dllist.Unlink.{address_at-append, unlink_at-ok, middle_Removed}

not_empty-at :
    {h : Heap} {l : Dllist} (xs : Items) (q e : Ptr) (ys : Items)
    → IsDllist h l (xs ++ ((q, e) ∷ ys))
    → dllist_is_empty l ≡ false
not_empty-at [] q e ys is = not_empty q e ys is
not_empty-at ((p, d) ∷ xs) q e ys is = not_empty p d (xs ++ ((q, e) ∷ ys)) is

size-at :
    {h : Heap} {l : Dllist} (xs : Items) (q e : Ptr) (ys : Items)
    → IsDllist h l (xs ++ ((q, e) ∷ ys))
    → l.size ≡ length xs + suc (length ys)
size-at xs q e ys is = is.size ∙ length-append {0} xs ((q, e) ∷ ys)

remove_end :
    (h : Heap) (l : Dllist) (xs : Items) (q e : Ptr)
    → IsDllist h l (xs ++ ((q, e) ∷ []))
    → length xs + 1 < 2 ^ 31
    → Returns (Removed h q e (xs ++ ((q, e) ∷ [])) xs) (dllist_remove l (length xs) h)
unfolding dllist_remove
remove_end h l xs q e is small =
    let size = size-at xs q e [] is in
    rw
      (
        not_empty-at xs q e [] is,
        is_inside (length xs) l.size (omega (arith, size)),
        is_end (length xs) l.size (omega (arith, size)) (omega (arith, size)),
      )
      (dllist_pop_back-snoc h l xs q e is)

remove_start :
    (h : Heap) (l : Dllist) (q e r f : Ptr) (zs : Items)
    → IsDllist h l ((q, e) ∷ (r, f) ∷ zs)
    → Returns (Removed h q e ((q, e) ∷ (r, f) ∷ zs) ((r, f) ∷ zs)) (dllist_remove l 0 h)
unfolding dllist_remove
remove_start h l q e r f zs is =
    rw
      (not_empty q e ((r, f) ∷ zs) is, ne→not_== 1 l.size (λ z. absurd (omega (arith, z, is.size))))
      (dllist_pop_front-cons h l q e ((r, f) ∷ zs) is)

remove_middle :
    (h : Heap) (l : Dllist) (p d : Ptr) (ys : Items) (q e r f : Ptr) (zs : Items)
    → IsDllist h l (((p, d) ∷ ys) ++ ((q, e) ∷ (r, f) ∷ zs))
    → length ys + length zs + 3 < 2 ^ 31
    → Returns
        (Removed h q e (((p, d) ∷ ys) ++ ((q, e) ∷ (r, f) ∷ zs)) (((p, d) ∷ ys) ++ ((r, f) ∷ zs)))
        (dllist_remove l (suc (length ys)) h)
unfolding dllist_remove
remove_middle h l p d ys q e r f zs is small =
    let size = size-at ((p, d) ∷ ys) q e ((r, f) ∷ zs) is in
    let i = suc (length ys) in
    rw
      (
        not_empty-at ((p, d) ∷ ys) q e ((r, f) ∷ zs) is,
        is_inside i l.size (omega (arith, size)),
        no_wrap i l.size (omega (arith, size)) (omega (arith, size)),
        ne→not_== (i + 1) l.size (λ z. absurd (omega (arith, z, size))),
        ne→not_== i 0 (λ z. absurd (omega (arith, z))),
        not_minus_pred i l.size (omega arith) (omega (arith, size)) (omega (arith, size)),
        unlink_at-ok h l p d ys q e r f zs is (walked (omega (arith, size, is.size))),
      )
      (returns (middle_Removed h l p d ys q e r f zs is))
  where
    all : Items
    all = ((p, d) ∷ ys) ++ ((q, e) ∷ (r, f) ∷ zs)

    walked : suc (length ys) < length all → walk (suc (length ys)) l.first h ≡ ok (q, h)
    walked lt = rw is.first (
        walk-address_at h l.type is.before all is.after null (suc (length ys)) is.chain is.distinct
          lt (omega (arith, small))
        ∙ ap (λ a. ok (a, h)) (address_at-append ((p, d) ∷ ys) q e ((r, f) ∷ zs)))

-- dllist_remove at the index of an element, for a list of fewer than 2 ^ 31 elements: the result is
-- its data, the other elements are left in their order, the node is freed, and nodes outside the
-- list do not change.
pub dllist_remove-at :
    (h : Heap) (l : Dllist) (xs : Items) (q e : Ptr) (ys : Items)
    → IsDllist h l (xs ++ ((q, e) ∷ ys))
    → length xs + suc (length ys) < 2 ^ 31
    → Returns (Removed h q e (xs ++ ((q, e) ∷ ys)) (xs ++ ys)) (dllist_remove l (length xs) h)
dllist_remove-at h l xs q e [] is small = rw (append-nil xs) (remove_end h l xs q e is small)
dllist_remove-at h l [] q e ((r, f) ∷ zs) is small = remove_start h l q e r f zs is
dllist_remove-at h l ((p, d) ∷ ys) q e ((r, f) ∷ zs) is small =
    remove_middle h l p d ys q e r f zs is (omega arith)
