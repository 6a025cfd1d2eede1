-- ===== src/Dllist/Insert.antt =====
-- dllist_insert.
use s6_projet_reseau.Common.{
  ◌^◌, ℕ, suc, ◌<◌, ◌≤◌, ◌≡◌, refl, ap, ◌∙◌, arith, true, false, some, [], ◌∷◌, ◌++◌, append-nil,
  ltb, leb, length, length-append, lt→not_leb, lt→ltb, le→leb,
}
use s6_projet_reseau.Common.Run.{ok, Returns, returns}
use s6_projet_reseau.Store.{Ptr, null, NodeType, Heap, Fresh}
use s6_projet_reseau.Dllist.{Dllist, walk, dllist_insert}
use s6_projet_reseau.Dllist.Seg.{Items}
use s6_projet_reseau.Dllist.Rep.{IsDllist}
use s6_projet_reseau.Dllist.Added.{
  IsFresh, IsAccepted, not_refused, Pushed, added, new_dllist_node-ok,
}
use s6_projet_reseau.Dllist.Push.{dllist_push_back-append, dllist_push_front-cons}
use s6_projet_reseau.Dllist.Get.{walk-address_at}
use s6_projet_reseau.Dllist.Unlink.{address_at-append}
use s6_projet_reseau.Dllist.Link.{chain1, link_before-ok, between_Pushed}

module _ (a : Fresh) (h : Heap) (l : Dllist) (content : Ptr) (fresh : IsFresh h a) (p d : Ptr)
    (ys : Items) (r f : Ptr) (zs : Items) (is : IsDllist h l (((p, d) ∷ ys) ++ ((r, f) ∷ zs))) where
  abbrev front : Items
  front = (p, d) ∷ ys

  abbrev rest : Items
  rest = (r, f) ∷ zs

  abbrev new : Ptr
  new = a.address

  abbrev h1 : Heap
  h1 = added a h l.type content

  insert_between :
      IsAccepted l l.type content
      → length front < 2 ^ 31
      → Returns
          (Pushed h ((new, content) ∷ (front ++ rest)) (front ++ ((new, content) ∷ rest)))
          (dllist_insert a (some l) (length front) l.type content h)
  unfolding dllist_insert
  insert_between k small =
      let inside : leb l.size (length front) ≡ false =
        lt→not_leb l.size (length front) (omega (arith, is.size, length-append {0} front rest)) in
      rw
        (
          not_refused l l.type content k,
          lt→ltb 0 (length front) (omega arith),
          inside,
          new_dllist_node-ok a h l.type content fresh,
          link_before-ok a h l content fresh p d ys r f zs is (length front) walked,
        )
        (returns (between_Pushed a h l content fresh p d ys r f zs is))
    where
      walked : walk (length front) l.first h1 ≡ ok (r, h1)
      walked = rw is.first (
          walk-address_at h1 l.type is.before (front ++ rest) is.after null (length front)
            (chain1 a h l content fresh p d ys r f zs is) is.distinct
            (omega (arith, length-append {0} front rest)) small
          ∙ ap (λ x. ok (x, h1)) (address_at-append front r f zs))

pub insert_end :
    (a : Fresh) (h : Heap) (l : Dllist) (xs : Items) (i : ℕ) (type : NodeType) (content : Ptr)
    → IsDllist h l xs
    → IsFresh h a
    → IsAccepted l type content
    → 0 < i
    → length xs ≤ i
    → Returns
        (Pushed h ((a.address, content) ∷ xs) (xs ++ ((a.address, content) ∷ [])))
        (dllist_insert a (some l) i type content h)
unfolding dllist_insert
insert_end a h l xs i type content is fresh k pos le =
    let positive : ltb 0 i ≡ true = ground arith in
    rw (not_refused l type content k, positive, le→leb l.size i (omega (arith, is.size)))
      (dllist_push_back-append a h l xs type content is fresh k)

insert_start :
    (a : Fresh) (h : Heap) (l : Dllist) (ys : Items) (type : NodeType) (content : Ptr)
    → IsDllist h l ys
    → IsFresh h a
    → IsAccepted l type content
    → Returns
        (Pushed h ((a.address, content) ∷ ys) ((a.address, content) ∷ ys))
        (dllist_insert a (some l) 0 type content h)
unfolding dllist_insert
insert_start a h l ys type content is fresh k =
    rw (not_refused l type content k) (dllist_push_front-cons a h l ys type content is fresh k)

-- dllist_insert at an index inside a list or at its end, of data that is not null and of the type of
-- the list, with the address of a new object from malloc, where the list has fewer than 2 ^ 31
-- elements: it succeeds, the data stands at the index, the elements from there on behind it, and no
-- other node is changed.
pub dllist_insert-at :
    (a : Fresh) (h : Heap) (l : Dllist) (xs ys : Items) (type : NodeType) (content : Ptr)
    → IsDllist h l (xs ++ ys)
    → IsFresh h a
    → IsAccepted l type content
    → length xs < 2 ^ 31
    → Returns
        (Pushed h ((a.address, content) ∷ (xs ++ ys)) (xs ++ ((a.address, content) ∷ ys)))
        (dllist_insert a (some l) (length xs) type content h)
dllist_insert-at a h l [] ys type content is fresh k small =
    insert_start a h l ys type content is fresh k
dllist_insert-at a h l ((p, d) ∷ xs) [] type content is fresh k small = rw (append-nil xs) (
    insert_end a h l ((p, d) ∷ xs) (suc (length xs)) type content (rw (append-nil xs) at is) fresh k
      (omega arith) (omega arith))
dllist_insert-at a h l ((p, d) ∷ xs) ((r, f) ∷ zs) type content is fresh k small = rw k.same_type (
    insert_between a h l content fresh p d xs r f zs is
      (record { not_null = k.not_null; same_type = refl }) small)
