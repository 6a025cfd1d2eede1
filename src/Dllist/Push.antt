-- ===== src/Dllist/Push.antt =====
-- dllist_push_back and dllist_push_front.
use s6_projet_reseau.Common.{
  ◌+◌, ◌≡◌, ◌≢◌, refl, sym, ◌∙◌, arith, false, some, [], ◌∷◌, ◌++◌, ◌==◌, length-append,
}
use s6_projet_reseau.Common.Run.{Returns, returns}
use s6_projet_reseau.Store.{Ptr, null, NodeType, Heap, Fresh, write}
use s6_projet_reseau.Store.Steps.{with_cell, write_self, write_ne, set_next-ok, set_prev-ok}
use s6_projet_reseau.Dllist.{
  Dllist, dllist_first_node, link_back, link_front, dllist_push_back, dllist_push_front,
}
use s6_projet_reseau.Dllist.Seg.{
  Items, first_of, last_of, node, Seg, frame-write, append, last_of-append,
}
use s6_projet_reseau.Dllist.Rep.{
  IsDllist, Distinct-append, not-has_of_none, has-last_of, ne_null_of_has, last_node,
}
use s6_projet_reseau.Dllist.Added.{
  IsFresh, IsAccepted, not_refused, Leaves, Pushed, added, new_dllist_node-ok,
}

module _ (a : Fresh) (h : Heap) (l : Dllist) (content : Ptr) (fresh : IsFresh h a) where
  -- The new node in a list that was empty.
  nil-Leaves :
      IsDllist h l []
      → Leaves h
          ((a.address, content) ∷ [])
          ((a.address, content) ∷ [])
          (record l { first = a.address; last = a.address; size = l.size + 1 })
          (added a h l.type content)
  nil-Leaves is = record {
    is = record {
      first = refl;
      last = refl;
      size = omega (arith, is.size);
      distinct = (fresh.not_null, refl, tt);
      before = a.prev;
      after = a.next;
      chain = (write_self h.cell a.address _, tt);
    };
    same = λ q i. write_ne h.cell a.address q _ (ground arith);
    live = refl;
  }

  link_back-cons :
      (p d : Ptr) (xs : Items)
      → IsDllist h l ((p, d) ∷ xs)
      → Returns
          (Pushed h
            ((a.address, content) ∷ (p, d) ∷ xs)
            (((p, d) ∷ xs) ++ ((a.address, content) ∷ [])))
          (link_back l a.address (added a h l.type content))
  unfolding link_back
  link_back-cons p d xs is =
      let here : Items = (p, d) ∷ xs in
      let q = last_of p xs in
      let out =
        not-has_of_none h.cell l.type is.before here is.after a.address is.chain fresh.unused in
      let ne : q ≢ a.address = ground (arith, has-last_of p d xs) in
      let q_not_null = ne_null_of_has here q is.distinct (has-last_of p d xs) in
      let h1 = added a h l.type content in
      let r =
        last_node h1.cell l.type is.before p d xs is.after
          (frame-write h.cell l.type is.before here is.after a.address _ is.chain out)
          is.distinct in
      let new = node l.type a.next a.prev content in
      let c2 = write h1.cell q (some (record r.this { next = a.address })) in
      let new_holds : c2 a.address ≡ some new =
        write_ne h1.cell q a.address _ (ground arith) ∙ write_self h.cell a.address (some new) in
      rw
        (
          is.last,
          set_next-ok h1 q r.this q_not_null r.holds a.address,
          set_prev-ok (with_cell h1 c2) a.address new fresh.not_null new_holds q,
        )
        (returns (
          record l { last = a.address; size = l.size + 1 },
          refl,
          record {
            is = record {
              first = is.first;
              last = sym (last_of-append null here ((a.address, content) ∷ []));
              size = omega (arith, is.size, length-append {0} here ((a.address, content) ∷ []));
              distinct =
                  Distinct-append here ((a.address, content) ∷ []) is.distinct
                    (fresh.not_null, refl, tt) (λ b i. ground (arith, out));
              before = is.before;
              after = a.next;
              chain =
                  append _ l.type is.before here ((a.address, content) ∷ []) a.next
                    (frame-write c2 l.type is.before here a.address a.address _ (r.relink a.address)
                      out)
                    (write_self c2 a.address _, tt);
            };
            same = λ b i.
                write_ne c2 a.address b _ (ground arith)
                ∙ write_ne h1.cell q b _ (ground (arith, has-last_of p d xs))
                ∙ write_ne h.cell a.address b _ (ground arith);
            live = refl;
          },
        ))

  link_front-cons :
      (p d : Ptr) (xs : Items)
      → IsDllist h l ((p, d) ∷ xs)
      → Returns
          (Pushed h ((a.address, content) ∷ (p, d) ∷ xs) ((a.address, content) ∷ (p, d) ∷ xs))
          (link_front l a.address (added a h l.type content))
  unfolding link_front
  link_front-cons p d xs is =
      let here : Items = (p, d) ∷ xs in
      let out =
        not-has_of_none h.cell l.type is.before here is.after a.address is.chain fresh.unused in
      let ne : p ≢ a.address = ground arith in
      let h1 = added a h l.type content in
      let old = node l.type (first_of xs is.after) is.before d in
      let old_holds : h1.cell p ≡ some old = write_ne h.cell a.address p _ ne ∙ is.chain.0 in
      let new = node l.type a.next a.prev content in
      let c2 = write h1.cell p (some (record old { prev = a.address })) in
      let new_holds : c2 a.address ≡ some new =
        write_ne h1.cell p a.address _ (ground arith) ∙ write_self h.cell a.address (some new) in
      let tail : Seg c2 l.type p xs is.after =
        frame-write h1.cell l.type p xs is.after p _
          (frame-write h.cell l.type p xs is.after a.address _ is.chain.1 (ground arith))
          is.distinct.1 in
      rw
        (
          is.first,
          set_prev-ok h1 p old is.distinct.0 old_holds a.address,
          set_next-ok (with_cell h1 c2) a.address new fresh.not_null new_holds p,
        )
        (returns (
          record l { first = a.address; size = l.size + 1 },
          refl,
          record {
            is = record {
              first = refl;
              last = is.last;
              size = omega (arith, is.size);
              distinct = (fresh.not_null, out, is.distinct);
              before = a.prev;
              after = is.after;
              chain = (
                write_self c2 a.address _,
                (
                  write_ne c2 a.address p _ ne ∙ write_self h1.cell p _,
                  frame-write c2 l.type p xs is.after a.address _ tail (ground arith),
                ),
              );
            };
            same = λ b i.
                write_ne c2 a.address b _ (ground arith)
                ∙ write_ne h1.cell p b _ (ground arith)
                ∙ write_ne h.cell a.address b _ (ground arith);
            live = refl;
          },
        ))

-- What the call reads first in a list that has a node.
not_first :
    {h : Heap} {l : Dllist} (p d : Ptr) (xs : Items)
    → IsDllist h l ((p, d) ∷ xs)
    → (l.first == null) ≡ false
not_first p d xs is = ground (arith, is.first, is.distinct.0)

-- dllist_push_back of data that is not null and of the type of the list, with the address of a new
-- object from malloc: it succeeds and puts the data behind the last element, and it changes no
-- other node.
pub dllist_push_back-append :
    (a : Fresh) (h : Heap) (l : Dllist) (xs : Items) (type : NodeType) (content : Ptr)
    → IsDllist h l xs
    → IsFresh h a
    → IsAccepted l type content
    → Returns
        (Pushed h ((a.address, content) ∷ xs) (xs ++ ((a.address, content) ∷ [])))
        (dllist_push_back a (some l) type content h)
unfolding dllist_push_back dllist_first_node
dllist_push_back-append a h l [] type content is fresh k =
    rw
      (
        not_refused l type content k,
        k.same_type,
        new_dllist_node-ok a h l.type content fresh,
        is.first,
        is.last,
      )
      (returns (_, refl, nil-Leaves a h l content fresh is))
dllist_push_back-append a h l ((p, d) ∷ xs) type content is fresh k =
    rw
      (
        not_refused l type content k,
        k.same_type,
        new_dllist_node-ok a h l.type content fresh,
        not_first p d xs is,
      )
      (link_back-cons a h l content fresh p d xs is)

-- dllist_push_front of data that is not null and of the type of the list, with the address of a new
-- object from malloc: it succeeds and puts the data in front of the first element, and it changes
-- no other node.
pub dllist_push_front-cons :
    (a : Fresh) (h : Heap) (l : Dllist) (xs : Items) (type : NodeType) (content : Ptr)
    → IsDllist h l xs
    → IsFresh h a
    → IsAccepted l type content
    → Returns
        (Pushed h ((a.address, content) ∷ xs) ((a.address, content) ∷ xs))
        (dllist_push_front a (some l) type content h)
unfolding dllist_push_front dllist_first_node
dllist_push_front-cons a h l [] type content is fresh k =
    rw
      (
        not_refused l type content k,
        k.same_type,
        new_dllist_node-ok a h l.type content fresh,
        is.first,
        is.last,
      )
      (returns (_, refl, nil-Leaves a h l content fresh is))
dllist_push_front-cons a h l ((p, d) ∷ xs) type content is fresh k =
    rw
      (
        not_refused l type content k,
        k.same_type,
        new_dllist_node-ok a h l.type content fresh,
        not_first p d xs is,
      )
      (link_front-cons a h l content fresh p d xs is)
