-- ===== src/Dllist/Link.antt =====
-- dllist_insert between two nodes.
use s6_projet_reseau.Common.{
  ℕ, ◌+◌, ◌≡◌, ◌≢◌, refl, sym, ◌∙◌, arith, true, false, some, ◌∷◌, ◌++◌, length-append,
}
use s6_projet_reseau.Common.Run.{ok}
use s6_projet_reseau.Store.{Ptr, null, Node, Heap, Fresh, write}
use s6_projet_reseau.Store.Steps.{
  with_cell, write_self, write_ne, load-ok, set_next-ok, set_prev-ok,
}
use s6_projet_reseau.Dllist.{Dllist, walk, link_before}
use s6_projet_reseau.Dllist.Seg.{
  Items, first_of, last_of, has, Distinct, node, Seg, frame-write, split_left, split_right, append,
  last_of-append,
}
use s6_projet_reseau.Dllist.Rep.{
  IsDllist, LastNode, ne_of_has, has-append, has-last_of, ne_null_of_has, last_node,
  not-has_of_none, Distinct-left, Distinct-right, Distinct-apart, Distinct-append,
}
use s6_projet_reseau.Dllist.Added.{IsFresh, Pushed, added}
use s6_projet_reseau.Dllist.Unlink.{apart-left}

has_left : (b : Ptr) (xs ys : Items) → has b xs ≡ true → has b (xs ++ ys) ≡ true
has_left b xs ys h = ground (arith, has-append b xs ys)

has_right : (b : Ptr) (xs ys : Items) → has b ys ≡ true → has b (xs ++ ys) ≡ true
has_right b xs ys h = ground (arith, has-append b xs ys)

Distinct-with :
    (xs ys : Items) (a c : Ptr)
    → Distinct (xs ++ ys)
    → a ≢ null
    → has a (xs ++ ys) ≡ false
    → Distinct (xs ++ ((a, c) ∷ ys))
Distinct-with xs ys a c k ne out =
    Distinct-append xs ((a, c) ∷ ys) (Distinct-left xs ys k)
      (ne, ground (arith, has-append a xs ys), Distinct-right xs ys k)
      (λ b i.
        apart b i (ne_of_has a b xs (ground (arith, has-append a xs ys)) i)
          (Distinct-apart xs ys k b i))
  where
    apart : (b : Ptr) → has b xs ≡ true → a ≢ b → has b ys ≡ false → has b ((a, c) ∷ ys) ≡ false
    apart b i ne out = ground arith

-- The new node between the list with head `p` and the list with head `r`.
module _ (a : Fresh) (h : Heap) (l : Dllist) (content : Ptr) (fresh : IsFresh h a) (p d : Ptr)
    (ys : Items) (r f : Ptr) (zs : Items) (is : IsDllist h l (((p, d) ∷ ys) ++ ((r, f) ∷ zs))) where
  abbrev front : Items
  front = (p, d) ∷ ys

  abbrev rest : Items
  rest = (r, f) ∷ zs

  abbrev before_r : Ptr
  before_r = last_of p ys

  abbrev new : Ptr
  new = a.address

  abbrev new_node : Node
  new_node = node l.type a.next a.prev content

  abbrev h1 : Heap
  h1 = added a h l.type content

  new_out : has new (front ++ rest) ≡ false
  new_out =
      not-has_of_none h.cell l.type is.before (front ++ rest) is.after new is.chain fresh.unused

  new_not_front : has new front ≡ false
  new_not_front = ground (arith, new_out, has-append new front rest)

  new_not_rest : has new rest ≡ false
  new_not_rest = ground (arith, new_out, has-append new front rest)

  pub chain1 : Seg h1.cell l.type is.before (front ++ rest) is.after
  chain1 = frame-write h.cell l.type is.before (front ++ rest) is.after new _ is.chain new_out

  right : Seg h1.cell l.type before_r rest is.after
  right = split_right h1.cell l.type is.before front rest is.after chain1

  rest-Distinct : Distinct rest
  rest-Distinct = Distinct-right front rest is.distinct

  r_not_front : has r front ≡ false
  r_not_front = apart-left front rest r is.distinct (ground arith)

  before_r_in : has before_r front ≡ true
  before_r_in = has-last_of p d ys

  before_r_not_rest : has before_r rest ≡ false
  before_r_not_rest = Distinct-apart front rest is.distinct before_r before_r_in

  before_r_ne_null : before_r ≢ null
  before_r_ne_null =
      ne_null_of_has front before_r (Distinct-left front rest is.distinct) before_r_in

  end_of_front : LastNode h1.cell l.type is.before p d ys
  end_of_front =
      last_node h1.cell l.type is.before p d ys r
        (split_left h1.cell l.type is.before front rest is.after chain1)
        (Distinct-left front rest is.distinct)

  r_ne_before : r ≢ before_r
  r_ne_before = ne_of_has r before_r front r_not_front before_r_in

  new_ne_before : new ≢ before_r
  new_ne_before = ne_of_has new before_r front new_not_front before_r_in

  new_ne_r : new ≢ r
  new_ne_r = ne_of_has new r rest new_not_rest (ground arith)

  old_r : Node
  old_r = node l.type (first_of zs is.after) before_r f

  -- The heap after each of the four assignments.
  h2 : Heap
  h2 = with_cell h1 (write h1.cell before_r (some (record end_of_front.this { next = new })))

  h3 : Heap
  h3 = with_cell h1 (write h2.cell new (some (record new_node { prev = before_r })))

  h4 : Heap
  h4 = with_cell h1 (write h3.cell r (some (record old_r { prev = new })))

  pub h5 : Heap
  h5 = with_cell h1 (write h4.cell new (some (node l.type r before_r content)))

  r_in2 : h2.cell r ≡ some (node l.type (first_of zs is.after) before_r f)
  unfolding h2
  r_in2 = write_ne h1.cell before_r r _ r_ne_before ∙ right.0

  r_in3 : h3.cell r ≡ some (node l.type (first_of zs is.after) before_r f)
  unfolding h3
  r_in3 = write_ne h2.cell new r _ (λ z. new_ne_r (sym z)) ∙ r_in2

  new_in2 : h2.cell new ≡ some new_node
  unfolding h2
  new_in2 = write_ne h1.cell before_r new _ new_ne_before ∙ write_self h.cell new _

  new_in4 : h4.cell new ≡ some (record new_node { prev = before_r })
  unfolding h4 h3
  new_in4 = write_ne h3.cell r new _ new_ne_r ∙ write_self h2.cell new _

  pub link_before-ok :
      (i : ℕ)
      → walk i l.first h1 ≡ ok (r, h1)
      → link_before l new i h1 ≡ ok ((true, some (record l { size = l.size + 1 })), h5)
  unfolding link_before h5 h4 h3 h2 old_r
  link_before-ok i walked =
      rw
        (
          walked,
          load-ok h1 r _ rest-Distinct.0 right.0,
          set_next-ok h1 before_r end_of_front.this before_r_ne_null end_of_front.holds new,
          load-ok h2 r _ rest-Distinct.0 r_in2,
          set_prev-ok h2 new new_node fresh.not_null new_in2 before_r,
          set_prev-ok h3 r old_r rest-Distinct.0 r_in3 new,
          set_next-ok h4 new (record new_node { prev = before_r }) fresh.not_null new_in4 r,
        )
        refl

  zs_kept : Seg h5.cell l.type r zs is.after
  unfolding h5 h4 h3 h2
  zs_kept =
      frame-write h4.cell l.type r zs is.after new _
        (frame-write h3.cell l.type r zs is.after r _
          (frame-write h2.cell l.type r zs is.after new _
            (frame-write h1.cell l.type r zs is.after before_r _ right.1 before_not_zs) new_not_zs)
          rest-Distinct.1)
        new_not_zs
    where
      before_not_zs : has before_r zs ≡ false
      before_not_zs = ground (arith, before_r_not_rest)

      new_not_zs : has new zs ≡ false
      new_not_zs = ground (arith, new_not_rest)

  front_kept : Seg h5.cell l.type is.before front new
  unfolding h5 h4 h3 h2
  front_kept =
      frame-write h4.cell l.type is.before front new new _
        (frame-write h3.cell l.type is.before front new r _
          (frame-write h2.cell l.type is.before front new new _ (end_of_front.relink new)
            new_not_front)
          r_not_front)
        new_not_front

  r_kept : h5.cell r ≡ some (node l.type (first_of zs is.after) new f)
  unfolding h5 h4 old_r
  r_kept = write_ne h4.cell new r _ (λ z. new_ne_r (sym z)) ∙ write_self h3.cell r _

  chain_with : Seg h5.cell l.type is.before (front ++ ((new, content) ∷ rest)) is.after
  unfolding h5
  chain_with =
      append h5.cell l.type is.before front ((new, content) ∷ rest) is.after front_kept
        (write_self h4.cell new _, (r_kept, zs_kept))

  untouched : (b : Ptr) → has b ((new, content) ∷ (front ++ rest)) ≡ false → h5.cell b ≡ h.cell b
  unfolding h5 h4 h3 h2
  untouched b i =
      write_ne h4.cell new b _ not_new
      ∙ write_ne h3.cell r b _
          (ne_of_has b r (front ++ rest) out (has_right r front rest (ground arith)))
      ∙ write_ne h2.cell new b _ not_new
      ∙ write_ne h1.cell before_r b _
          (ne_of_has b before_r (front ++ rest) out (has_left before_r front rest before_r_in))
      ∙ write_ne h.cell new b _ not_new
    where
      not_new : b ≢ new
      not_new = ground arith

      out : has b (front ++ rest) ≡ false
      out = ground arith

  pub between_Pushed :
      Pushed h
        ((new, content) ∷ (front ++ rest))
        (front ++ ((new, content) ∷ rest))
        ((true, some (record l { size = l.size + 1 })), h5)
  unfolding h5
  between_Pushed = (
    record l { size = l.size + 1 },
    refl,
    record {
      is = record {
        first = is.first;
        last =
            is.last
            ∙ last_of-append null front rest
            ∙ sym (last_of-append null front ((new, content) ∷ rest));
        size = omega (
          arith,
          is.size,
          length-append {0} front rest,
          length-append {0} front ((new, content) ∷ rest),
        );
        distinct = Distinct-with front rest new content is.distinct fresh.not_null new_out;
        before = is.before;
        after = is.after;
        chain = chain_with;
      };
      same = untouched;
      live = refl;
    },
  )
