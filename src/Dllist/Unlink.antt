-- ===== src/Dllist/Unlink.antt =====
-- dllist_remove of a node between two others.
use s6_projet_reseau.Common.{
  ◌-◌, ◌≡◌, ◌≢◌, refl, sym, ◌∙◌, arith, true, false, none, some, [], ◌∷◌, ◌++◌, length,
  length-append, inl, inr, Bool-cases,
}
use s6_projet_reseau.Common.Run.{ok}
use s6_projet_reseau.Store.{Ptr, null, Node, Heap, write}
use s6_projet_reseau.Store.Steps.{
  with_cell, write_self, write_ne, load-ok, set_next-ok, set_prev-ok,
}
use s6_projet_reseau.Dllist.{Dllist, walk, unlink_at}
use s6_projet_reseau.Dllist.Seg.{
  Items, first_of, last_of, has, Distinct, node, Seg, frame-write, split_left, split_right, append,
  last_of-append,
}
use s6_projet_reseau.Dllist.Rep.{
  IsDllist, LastNode, ne_of_has, has-append, has-last_of, ne_null_of_has, last_node, Distinct-left,
  Distinct-right, Distinct-apart, Distinct-append,
}
use s6_projet_reseau.Dllist.Removed.{dllist_free_node-ok, Removed}
use s6_projet_reseau.Dllist.Get.{address_at}

pub apart-left :
    (xs ys : Items) (b : Ptr) → Distinct (xs ++ ys) → has b ys ≡ true → has b xs ≡ false
apart-left xs ys b k i = elim (Bool-cases (has b xs)) [
  | inl e ↦ cc (Distinct-apart xs ys k b e)
  | inr e ↦ e
]

pub address_at-append :
    (xs : Items) (q e : Ptr) (ys : Items) → address_at (xs ++ ((q, e) ∷ ys)) (length xs) ≡ q
address_at-append [] q e ys = refl
address_at-append ((p, d) ∷ xs) q e ys = address_at-append xs q e ys

-- Distinct elements stay distinct when one goes.
Distinct-without :
    (xs : Items) (q e : Ptr) (ys : Items) → Distinct (xs ++ ((q, e) ∷ ys)) → Distinct (xs ++ ys)
Distinct-without xs q e ys k =
    Distinct-append xs ys (Distinct-left xs ((q, e) ∷ ys) k) (Distinct-right xs ((q, e) ∷ ys) k).2
      (λ a i. behind a (Distinct-apart xs ((q, e) ∷ ys) k a i))
  where
    behind : (a : Ptr) → has a ((q, e) ∷ ys) ≡ false → has a ys ≡ false
    behind a o = ground arith

-- A node between two others: `q` behind the list with head `p`, and in front of `r`.
module _ (h : Heap) (l : Dllist) (p d : Ptr) (ys : Items) (q e r f : Ptr) (zs : Items)
    (is : IsDllist h l (((p, d) ∷ ys) ++ ((q, e) ∷ (r, f) ∷ zs))) where
  abbrev front : Items
  front = (p, d) ∷ ys

  abbrev rest : Items
  rest = (q, e) ∷ (r, f) ∷ zs

  abbrev before_q : Ptr
  before_q = last_of p ys

  rest-Distinct : Distinct rest
  rest-Distinct = Distinct-right front rest is.distinct

  right : Seg h.cell l.type before_q rest is.after
  right = split_right h.cell l.type is.before front rest is.after is.chain

  q_ne_null : q ≢ null
  q_ne_null = rest-Distinct.0

  q_ne_r : q ≢ r
  q_ne_r = ne_of_has q r ((r, f) ∷ zs) rest-Distinct.1 (ground arith)

  q_not_front : has q front ≡ false
  q_not_front = apart-left front rest q is.distinct (ground arith)

  r_not_front : has r front ≡ false
  r_not_front = apart-left front rest r is.distinct (ground arith)

  before_q_in : has before_q front ≡ true
  before_q_in = has-last_of p d ys

  before_q_not_rest : has before_q rest ≡ false
  before_q_not_rest = Distinct-apart front rest is.distinct before_q before_q_in

  before_q_ne_null : before_q ≢ null
  before_q_ne_null =
      ne_null_of_has front before_q (Distinct-left front rest is.distinct) before_q_in

  -- `p->next->prev = p->prev`
  old_r : Node
  old_r = node l.type (first_of zs is.after) q f

  linked_r : Heap
  linked_r = with_cell h (write h.cell r (some (record old_r { prev = before_q })))

  end_of_front : LastNode linked_r.cell l.type is.before p d ys
  unfolding linked_r
  end_of_front =
      last_node linked_r.cell l.type is.before p d ys q
        (frame-write h.cell l.type is.before front q r _
          (split_left h.cell l.type is.before front rest is.after is.chain) r_not_front)
        (Distinct-left front rest is.distinct)

  -- `p->prev->next = p->next`
  linked : Heap
  linked = with_cell h (write linked_r.cell before_q (some (record end_of_front.this { next = r })))

  q_kept_r : linked_r.cell q ≡ some (node l.type r before_q e)
  unfolding linked_r
  q_kept_r = write_ne h.cell r q _ q_ne_r ∙ right.0

  q_kept : linked.cell q ≡ some (node l.type r before_q e)
  unfolding linked
  q_kept =
      write_ne linked_r.cell before_q q _ (ne_of_has q before_q front q_not_front before_q_in)
      ∙ q_kept_r

  pub unlinked : Heap
  unlinked = with_cell h (write linked.cell q none)

  pub unlink_at-ok :
      walk (length front) l.first h ≡ ok (q, h)
      → unlink_at l (length front) h ≡ ok ((e, record l { size = l.size - 1 }), unlinked)
  unfolding unlink_at linked linked_r unlinked old_r
  unlink_at-ok walked =
      rw
        (
          walked,
          load-ok h q _ q_ne_null right.0,
          set_prev-ok h r old_r rest-Distinct.2.0 right.1.0 before_q,
          load-ok linked_r q _ q_ne_null q_kept_r,
          set_next-ok linked_r before_q end_of_front.this before_q_ne_null end_of_front.holds r,
          load-ok linked q _ q_ne_null q_kept,
          dllist_free_node-ok linked q _ q_ne_null q_kept,
        )
        refl

  zs_kept : Seg linked.cell l.type r zs is.after
  unfolding linked linked_r
  zs_kept =
      frame-write linked_r.cell l.type r zs is.after before_q _
        (frame-write h.cell l.type r zs is.after r _ right.1.1 rest-Distinct.2.1)
        (ground (arith, before_q_not_rest))

  chain_left : Seg unlinked.cell l.type is.before (front ++ ((r, f) ∷ zs)) is.after
  unfolding unlinked linked linked_r old_r
  chain_left =
      append unlinked.cell l.type is.before front ((r, f) ∷ zs) is.after
        (frame-write linked.cell l.type is.before front r q none (end_of_front.relink r)
          q_not_front)
        (
          r_kept,
          frame-write linked.cell l.type r zs is.after q none zs_kept
              (ground (arith, rest-Distinct.1)),
        )
    where
      r_kept : unlinked.cell r ≡ some (node l.type (first_of zs is.after) before_q f)
      r_kept =
          write_ne linked.cell q r _ (λ z. q_ne_r (sym z))
          ∙ write_ne linked_r.cell before_q r _ (ground (arith, before_q_not_rest))
          ∙ write_self h.cell r _

  untouched : (b : Ptr) → has b (front ++ rest) ≡ false → unlinked.cell b ≡ h.cell b
  unfolding unlinked linked linked_r
  untouched b i =
      write_ne linked.cell q b none (ne_of_has b q (front ++ rest) i (in_rest q (ground arith)))
      ∙ write_ne linked_r.cell before_q b _ (
          ne_of_has b before_q (front ++ rest) i
            (ground (arith, has-append before_q front rest, before_q_in)))
      ∙ write_ne h.cell r b _ (ne_of_has b r (front ++ rest) i (in_rest r (ground arith)))
    where
      in_rest : (a : Ptr) → has a rest ≡ true → has a (front ++ rest) ≡ true
      in_rest a k = ground (arith, has-append a front rest)

  pub middle_Removed :
      Removed h q e
        (front ++ rest)
        (front ++ ((r, f) ∷ zs))
        ((e, record l { size = l.size - 1 }), unlinked)
  unfolding unlinked
  middle_Removed = record {
    data_is = refl;
    leaves = record {
      is = record {
        first = is.first;
        last =
            is.last
            ∙ last_of-append null front rest
            ∙ sym (last_of-append null front ((r, f) ∷ zs));
        size =
            omega
              (arith, is.size, length-append {0} front rest, length-append {0} front ((r, f) ∷ zs));
        distinct = Distinct-without front q e ((r, f) ∷ zs) is.distinct;
        before = is.before;
        after = is.after;
        chain = chain_left;
      };
      same = untouched;
      live = refl;
    };
    freed = write_self linked.cell q none;
  }
