-- ===== src/Dllist/PopFront.antt =====
-- dllist_pop_front.
use s6_projet_reseau.Common.{
  ◌-◌, ◌≡◌, ◌≢◌, refl, sym, ◌∙◌, arith, true, false, none, some, [], ◌∷◌, ◌==◌, ne→not_==,
}
use s6_projet_reseau.Common.Run.{ok, Returns, returns}
use s6_projet_reseau.Store.{Ptr, null, Node, Heap, write}
use s6_projet_reseau.Store.Steps.{with_cell, write_self, write_ne, load-ok, set_prev-ok}
use s6_projet_reseau.Dllist.{Dllist, dllist_last_node, unlink_front, dllist_pop_front}
use s6_projet_reseau.Dllist.Seg.{Items, first_of, node, frame-write}
use s6_projet_reseau.Dllist.Rep.{IsDllist, first_holds, first_ne_null, ne_of_has, has-last_of}
use s6_projet_reseau.Dllist.Removed.{dllist_free_node-ok, Removed, not_empty, ne_head, single}

module _ (h : Heap) (l : Dllist) (p d : Ptr) where
  unlink_single :
      IsDllist h l ((p, d) ∷ []) → unlink_front l h ≡ ok (record l { first = null; last = null }, h)
  unfolding unlink_front dllist_last_node
  unlink_single is =
      let one : (l.first == l.last) ≡ true = ground (arith, is.first, is.last) in rw one

module _ (h : Heap) (l : Dllist) (p d q e : Ptr) (ys : Items)
    (is : IsDllist h l ((p, d) ∷ (q, e) ∷ ys)) where
  old : Node
  old = node l.type (first_of ys is.after) p e

  -- The list behind the first node, before that is freed.
  without_first : Heap
  without_first = with_cell h (write h.cell q (some (record old { prev = null })))

  unlink_front-more : unlink_front l h ≡ ok (record l { first = q }, without_first)
  unfolding unlink_front dllist_last_node without_first old
  unlink_front-more =
      let more : (l.first == l.last) ≡ false =
        rw (is.first, is.last)
          (ne→not_== p _ (ne_of_has p _ ((q, e) ∷ ys) is.distinct.1 (has-last_of q e ys))) in
      rw (
        more,
        load-ok h l.first _ (first_ne_null p d _ is) (first_holds p d _ is),
        set_prev-ok h q old is.distinct.2.0 is.chain.1.0 null,
      )

  first_Removed : Removed h p d ((p, d) ∷ (q, e) ∷ ys) ((q, e) ∷ ys) (
    (d, record l { first = q; size = l.size - 1 }),
    with_cell h (write without_first.cell p none),
  )
  unfolding without_first old
  first_Removed =
      let ne : q ≢ p = ground (arith, is.distinct.1) in
      record {
        data_is = refl;
        leaves = record {
          is = record {
            first = refl;
            last = is.last;
            size = omega (arith, is.size);
            distinct = is.distinct.2;
            before = null;
            after = is.after;
            chain = (
              write_ne without_first.cell p q _ ne ∙ write_self h.cell q _,
              frame-write without_first.cell l.type q ys is.after p none
                  (frame-write h.cell l.type q ys is.after q _ is.chain.1.1 is.distinct.2.1)
                  (ground (arith, is.distinct.1)),
            );
          };
          same = λ b i.
              write_ne without_first.cell p b _ (ground arith)
              ∙ write_ne h.cell q b _ (ground arith);
          live = refl;
        };
        freed = write_self without_first.cell p none;
      }

-- dllist_pop_front of a list with a first element: the result is its data, the rest of the list is
-- left, the node is freed, and nodes outside the list do not change.
pub dllist_pop_front-cons :
    (h : Heap) (l : Dllist) (p d : Ptr) (xs : Items)
    → IsDllist h l ((p, d) ∷ xs)
    → Returns (Removed h p d ((p, d) ∷ xs) xs) (dllist_pop_front l h)
unfolding dllist_pop_front without_first
dllist_pop_front-cons h l p d [] is =
    let ne = first_ne_null p d [] is in
    let e = first_holds p d [] is in
    rw
      (
        not_empty p d [] is,
        load-ok h l.first _ ne e,
        unlink_single h l p d is,
        dllist_free_node-ok h l.first _ ne e,
      )
      (rw is.first (returns (single h l p d is)))
dllist_pop_front-cons h l p d ((q, e) ∷ ys) is =
    let ne = first_ne_null p d ((q, e) ∷ ys) is in
    let holds = first_holds p d ((q, e) ∷ ys) is in
    let still : (without_first h l p d q e ys is).cell l.first ≡ h.cell l.first =
      write_ne h.cell q l.first _ (λ z. ne_head p q e ys is.distinct.1 (sym is.first ∙ z)) in
    rw
      (
        not_empty p d ((q, e) ∷ ys) is,
        load-ok h l.first _ ne holds,
        unlink_front-more h l p d q e ys is,
        dllist_free_node-ok (without_first h l p d q e ys is) l.first _ ne (still ∙ holds),
      )
      (rw is.first (returns (first_Removed h l p d q e ys is)))
