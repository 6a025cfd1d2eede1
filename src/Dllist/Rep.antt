-- ===== src/Dllist/Rep.antt =====
-- What a list stands for in memory, and changes of the links at its ends.
use s6_projet_reseau.Common.{
  ◌≡◌, ◌≢◌, refl, sym, ap, ◌∙◌, arith, true, false, ◌||◌, none, some, [], ◌∷◌, ◌++◌, length,
}
use s6_projet_reseau.Store.{Ptr, null, NodeType, Node, Cells, Heap, write}
use s6_projet_reseau.Store.Steps.{write_self, write_ne}
use s6_projet_reseau.Dllist.{Dllist}
use s6_projet_reseau.Dllist.Seg.{Items, first_of, last_of, has, Distinct, node, Seg}

-- The header `l` and the heap hold the list `xs`. What the links at the two ends hold is not said:
-- dllist_push_back and dllist_push_front on an empty list do not assign them.
pub record IsDllist (h : Heap) (l : Dllist) (xs : Items) : Type 0 where
  pub first : l.first ≡ first_of xs null
  pub last : l.last ≡ last_of null xs
  pub size : l.size ≡ length xs
  pub distinct : Distinct xs
  pub before : Ptr
  pub after : Ptr
  pub chain : Seg h.cell l.type before xs after

pub has-append : (a : Ptr) (xs ys : Items) → has a (xs ++ ys) ≡ (has a xs || has a ys)
has-append a [] ys = refl
has-append a ((p, d) ∷ xs) ys = ground (arith, has-append a xs ys)

pub Distinct-left : (xs ys : Items) → Distinct (xs ++ ys) → Distinct xs
Distinct-left [] ys h = tt
Distinct-left ((p, d) ∷ xs) ys h =
    (h.0, ground (arith, has-append p xs ys), Distinct-left xs ys h.2)

pub Distinct-right : (xs ys : Items) → Distinct (xs ++ ys) → Distinct ys
Distinct-right [] ys h = h
Distinct-right ((p, d) ∷ xs) ys h = Distinct-right xs ys h.2

pub Distinct-apart :
    (xs ys : Items) → Distinct (xs ++ ys) → (a : Ptr) → has a xs ≡ true → has a ys ≡ false
Distinct-apart [] ys h a i = cc
Distinct-apart ((p, d) ∷ xs) ys h a i =
    ground (arith, has-append p xs ys, Distinct-apart xs ys h.2 a)

-- The last address is not among the others.
pub Distinct-end : (xs : Items) (q e : Ptr) → Distinct (xs ++ ((q, e) ∷ [])) → has q xs ≡ false
Distinct-end [] q e h = refl
Distinct-end ((p, d) ∷ xs) q e h =
    ground (arith, has-append p xs ((q, e) ∷ []), Distinct-end xs q e h.2)

pub Distinct-append :
    (xs ys : Items)
    → Distinct xs
    → Distinct ys
    → ((a : Ptr) → has a xs ≡ true → has a ys ≡ false)
    → Distinct (xs ++ ys)
Distinct-append [] ys h k apart = k
Distinct-append ((p, d) ∷ xs) ys h k apart = (
  h.0,
  ground (arith, has-append p xs ys, apart p),
  Distinct-append xs ys h.2 k (λ a i. apart a (ground arith)),
)

pub ne_null_of_has : (xs : Items) (a : Ptr) → Distinct xs → has a xs ≡ true → a ≢ null
ne_null_of_has [] a h i = cc
ne_null_of_has ((p, d) ∷ xs) a h i = ground (arith, h.0, ne_null_of_has xs a h.2)

pub has-last_of : (p d : Ptr) (xs : Items) → has (last_of p xs) ((p, d) ∷ xs) ≡ true
has-last_of p d [] = ground arith
has-last_of p d ((q, e) ∷ xs) = ground (arith, has-last_of q e xs)

-- A cell outside a segment.
pub not-has_of_none :
    (c : Cells) (t : NodeType) (before : Ptr) (xs : Items) (after a : Ptr)
    → Seg c t before xs after
    → c a ≡ none
    → has a xs ≡ false
not-has_of_none c t before [] after a s e = refl
not-has_of_none c t before ((p, d) ∷ xs) after a s e =
    ground (arith, s.0, not-has_of_none c t p xs after a s.1)

-- The last node of a segment, and the segment with another link there.
pub record LastNode (c : Cells) (t : NodeType) (before p d : Ptr) (xs : Items) : Type 0 where
  pub this : Node
  pub holds : c (last_of p xs) ≡ some this
  pub relink :
      (b : Ptr)
      → Seg (write c (last_of p xs) (some (record this { next = b }))) t before ((p, d) ∷ xs) b

pub last_node :
    (c : Cells) (t : NodeType) (before p d : Ptr) (xs : Items) (after : Ptr)
    → Seg c t before ((p, d) ∷ xs) after
    → Distinct ((p, d) ∷ xs)
    → LastNode c t before p d xs
last_node c t before p d [] after s h = record {
  this = node t after before d;
  holds = s.0;
  relink = λ b. (write_self c p _, tt);
}
last_node c t before p d ((q, e) ∷ xs) after s h =
    let r = last_node c t p q e xs after s.1 h.2 in
    let ne : p ≢ last_of q xs = ground (arith, has-last_of q e xs) in
    record { this = r.this; holds = r.holds; relink = λ b. (write_ne c _ p _ ne ∙ s.0, r.relink b) }

pub ne_of_has : (a b : Ptr) (xs : Items) → has a xs ≡ false → has b xs ≡ true → a ≢ b
ne_of_has a b xs out i e = cc (ap (λ c. has c xs) e)

-- The node that the header calls the first.
module _ {h : Heap} {l : Dllist} (p d : Ptr) (xs : Items) (is : IsDllist h l ((p, d) ∷ xs)) where
  pub first_ne_null : l.first ≢ null
  first_ne_null e = is.distinct.0 (sym is.first ∙ e)

  pub first_holds : h.cell l.first ≡ some (node l.type (first_of xs is.after) is.before d)
  first_holds = ap h.cell is.first ∙ is.chain.0
