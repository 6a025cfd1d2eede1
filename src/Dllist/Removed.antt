-- ===== src/Dllist/Removed.antt =====
-- What taking an element out of a list does: the node unlinked, and then freed.
use s6_projet_reseau.Common.{
  ◌-◌, ◌≡◌, ◌≢◌, refl, ap, ◌∙◌, arith, false, Option, none, some, [], ◌∷◌,
}
use mathlib.Core.Path.{fun_ext}
use s6_projet_reseau.Common.Run.{ok}
use s6_projet_reseau.Store.{Ptr, null, Node, Cells, Heap, write}
use s6_projet_reseau.Store.Steps.{
  with_cell, write_self, write_ne, load-ok, set_next-ok, set_prev-ok, free-ok,
}
use s6_projet_reseau.Dllist.{Dllist, dllist_free_node, dllist_is_empty}
use s6_projet_reseau.Dllist.Seg.{Items, last_of, has}
use s6_projet_reseau.Dllist.Rep.{IsDllist, has-last_of, ne_null_of_has}
use s6_projet_reseau.Dllist.Added.{Leaves}

write-write : (c : Cells) (p : Ptr) (m n : Option Node) → write (write c p m) p n ≡ write c p n
unfolding write
write-write c p m n = fun_ext λ q. ground arith

-- Freeing a node, and not its data.
pub dllist_free_node-ok :
    (h : Heap) (p : Ptr) (n : Node)
    → p ≢ null
    → h.cell p ≡ some n
    → dllist_free_node p false h ≡ ok (tt, with_cell h (write h.cell p none))
unfolding dllist_free_node
dllist_free_node-ok h p n ne e =
    let n1 = record n { next = null } in
    let n2 = record n1 { prev = null } in
    let h1 = with_cell h (write h.cell p (some n1)) in
    let e1 : h1.cell p ≡ some n1 = write_self h.cell p (some n1) in
    let h2 = with_cell h (write h1.cell p (some n2)) in
    let e2 : h2.cell p ≡ some n2 = write_self h1.cell p (some n2) in
    rw
      (
        set_next-ok h p n ne e null,
        set_prev-ok h1 p n1 ne e1 null,
        load-ok h2 p n2 ne e2,
        free-ok h2 p n2 ne e2,
      )
      (ap (λ c. ok (tt, with_cell h c))
        (write-write h1.cell p (some n2) none ∙ write-write h.cell p (some n1) none))

-- The outcome of a removal: the data of the node, the list that is left, and the node freed.
pub record Removed (h : Heap) (p d : Ptr) (touched ys : Items) (r : (Ptr × Dllist) × Heap)
    : Type 0 where
  pub data_is : r.0.0 ≡ d
  pub leaves : Leaves h touched ys r.0.1 r.1
  pub freed : r.1.cell p ≡ none

-- A list with an element is not empty.
pub not_empty :
    {h : Heap} {l : Dllist} (p d : Ptr) (xs : Items)
    → IsDllist h l ((p, d) ∷ xs)
    → dllist_is_empty l ≡ false
unfolding dllist_is_empty
not_empty p d xs is = ground (
  arith,
  is.first,
  is.last,
  is.distinct.0,
  ne_null_of_has ((p, d) ∷ xs) (last_of p xs) is.distinct (has-last_of p d xs),
)

pub ne_head : (p q e : Ptr) (ys : Items) → has p ((q, e) ∷ ys) ≡ false → p ≢ q
ne_head p q e ys h = ground arith

module _ (h : Heap) (l : Dllist) (p d : Ptr) where
  -- The last node of a list with one.
  pub single :
      IsDllist h l ((p, d) ∷ [])
      → Removed h p d ((p, d) ∷ []) [] (
        (d, record l { first = null; last = null; size = l.size - 1 }),
        with_cell h (write h.cell p none),
      )
  single is = record {
    data_is = refl;
    leaves = record {
      is = record {
        first = refl;
        last = refl;
        size = omega (arith, is.size);
        distinct = tt;
        before = null;
        after = null;
        chain = tt;
      };
      same = λ b i. write_ne h.cell p b _ (ground arith);
      live = refl;
    };
    freed = write_self h.cell p none;
  }
