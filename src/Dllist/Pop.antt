-- ===== src/Dllist/Pop.antt =====
-- dllist_pop_back.
use s6_projet_reseau.Common.{
  ◌-◌, ◌≡◌, ◌≢◌, refl, sym, ap, ◌∙◌, arith, true, false, none, some, [], ◌∷◌, ◌++◌, ◌==◌, ne→not_==,
  length-append,
}
use s6_projet_reseau.Common.Run.{ok, Returns, returns}
use s6_projet_reseau.Store.{Ptr, null, Heap, write}
use s6_projet_reseau.Store.Steps.{with_cell, write_self, write_ne, load-ok, set_next-ok}
use s6_projet_reseau.Dllist.{Dllist, dllist_last_node, unlink_back, dllist_pop_back}
use s6_projet_reseau.Dllist.Seg.{
  Items, last_of, has, node, frame-write, split_left, split_right, last_of-append,
}
use s6_projet_reseau.Dllist.Rep.{
  IsDllist, LastNode, ne_of_has, has-append, has-last_of, ne_null_of_has, last_node, Distinct-left,
  Distinct-right, Distinct-end,
}
use s6_projet_reseau.Dllist.Removed.{dllist_free_node-ok, Removed, not_empty, ne_head, single}

outside_both :
    (b : Ptr) (xs : Items) (q e : Ptr)
    → has b (xs ++ ((q, e) ∷ [])) ≡ false
    → (has b xs ≡ false) × (b ≢ q)
outside_both b xs q e i = ground (arith, has-append b xs ((q, e) ∷ []))

module _ (h : Heap) (l : Dllist) (q e p d : Ptr) (ys : Items)
    (is : IsDllist h l (((p, d) ∷ ys) ++ ((q, e) ∷ []))) where
  abbrev front : Items
  front = (p, d) ∷ ys

  -- The node at the end.
  end_holds : h.cell l.last ≡ some (node l.type is.after (last_of p ys) e)
  end_holds =
      ap h.cell (is.last ∙ last_of-append null front ((q, e) ∷ []))
      ∙ (split_right h.cell l.type is.before front ((q, e) ∷ []) is.after is.chain).0

  end_is : l.last ≡ q
  end_is = is.last ∙ last_of-append null front ((q, e) ∷ [])

  end_apart : has q front ≡ false
  end_apart = Distinct-end front q e is.distinct

  end_ne_null : l.last ≢ null
  end_ne_null z = (Distinct-right front ((q, e) ∷ []) is.distinct).0 (sym end_is ∙ z)

  -- The node before the end.
  before_end : LastNode h.cell l.type is.before p d ys
  before_end =
      last_node h.cell l.type is.before p d ys q
        (split_left h.cell l.type is.before front ((q, e) ∷ []) is.after is.chain)
        (Distinct-left front ((q, e) ∷ []) is.distinct)

  before_end_ne_null : last_of p ys ≢ null
  before_end_ne_null =
      ne_null_of_has front (last_of p ys) (Distinct-left front ((q, e) ∷ []) is.distinct)
        (has-last_of p d ys)

  -- The list in front of the last node, before that is freed.
  without_last : Heap
  without_last =
      with_cell h (write h.cell (last_of p ys) (some (record before_end.this { next = null })))

  unlink_back-more : unlink_back l h ≡ ok (record l { last = last_of p ys }, without_last)
  unfolding unlink_back dllist_last_node without_last
  unlink_back-more =
      let more : (l.first == l.last) ≡ false =
        rw (is.first, end_is) (ne→not_== p q (λ z. ne_head q p d ys end_apart (sym z))) in
      rw (
        more,
        load-ok h l.last _ end_ne_null end_holds,
        set_next-ok h (last_of p ys) before_end.this before_end_ne_null before_end.holds null,
      )

  last_Removed : Removed h q e (front ++ ((q, e) ∷ [])) front (
    (e, record l { last = last_of p ys; size = l.size - 1 }),
    with_cell h (write without_last.cell q none),
  )
  unfolding without_last
  last_Removed = record {
    data_is = refl;
    leaves = record {
      is = record {
        first = is.first;
        last = refl;
        size = omega (arith, is.size, length-append {0} front ((q, e) ∷ []));
        distinct = Distinct-left front ((q, e) ∷ []) is.distinct;
        before = is.before;
        after = null;
        chain =
            frame-write without_last.cell l.type is.before front null q none
              (before_end.relink null) end_apart;
      };
      same = λ b i.
          let out = outside b i in
          write_ne without_last.cell q b none (out.1)
          ∙ write_ne h.cell (last_of p ys) b _
              (ne_of_has b (last_of p ys) front out.0 (has-last_of p d ys));
      live = refl;
    };
    freed = write_self without_last.cell q none;
  }
    where
      outside : (b : Ptr) → has b (front ++ ((q, e) ∷ [])) ≡ false → (has b front ≡ false) × (b ≢ q)
      outside b i = outside_both b front q e i

unlink_back_single :
    (h : Heap) (l : Dllist) (p d : Ptr)
    → IsDllist h l ((p, d) ∷ [])
    → unlink_back l h ≡ ok (record l { first = null; last = null }, h)
unfolding unlink_back dllist_last_node
unlink_back_single h l p d is =
    let one : (l.first == l.last) ≡ true = ground (arith, is.first, is.last) in rw one

-- dllist_pop_back of a list with a last element: the result is its data, the elements in front of
-- it are left, the node is freed, and nodes outside the list do not change.
pub dllist_pop_back-snoc :
    (h : Heap) (l : Dllist) (xs : Items) (q e : Ptr)
    → IsDllist h l (xs ++ ((q, e) ∷ []))
    → Returns (Removed h q e (xs ++ ((q, e) ∷ [])) xs) (dllist_pop_back l h)
unfolding dllist_pop_back without_last
dllist_pop_back-snoc h l [] q e is =
    let ne : l.last ≢ null = λ z. is.distinct.0 (sym is.last ∙ z) in
    let holds : h.cell l.last ≡ some (node l.type is.after is.before e) =
      ap h.cell is.last ∙ is.chain.0 in
    rw
      (
        not_empty q e [] is,
        load-ok h l.last _ ne holds,
        unlink_back_single h l q e is,
        dllist_free_node-ok h l.last _ ne holds,
      )
      (rw is.last (returns (single h l q e is)))
dllist_pop_back-snoc h l ((p, d) ∷ ys) q e is =
    let ne = end_ne_null h l q e p d ys is in
    let holds = end_holds h l q e p d ys is in
    let other : l.last ≢ last_of p ys = rw (end_is h l q e p d ys is) (
      ne_of_has q (last_of p ys) ((p, d) ∷ ys) (end_apart h l q e p d ys is)
        (has-last_of p d ys)) in
    let still : (without_last h l q e p d ys is).cell l.last ≡ h.cell l.last =
      write_ne h.cell (last_of p ys) l.last _ other in
    rw
      (
        not_empty p d (ys ++ ((q, e) ∷ [])) is,
        load-ok h l.last _ ne holds,
        unlink_back-more h l q e p d ys is,
        dllist_free_node-ok (without_last h l q e p d ys is) l.last _ ne (still ∙ holds),
      )
      (rw (end_is h l q e p d ys is) (returns (last_Removed h l q e p d ys is)))
