-- ===== src/Dllist/Seg.antt =====
-- Doubly linked segments of nodes at distinct addresses.
use s6_projet_reseau.Common.{
  ◌≡◌, ◌≢◌, refl, ◌∙◌, arith, Bool, true, false, ◌||◌, Option, some, List, [], ◌∷◌, ◌++◌, ◌==◌,
}
use s6_projet_reseau.Store.{Ptr, null, NodeType, Node, Cells, write}

-- What a list stands for: the address and the data of each node, in order.
abbrev pub Items : Type 0
Items = List (Ptr × Ptr)

-- The address of the first node, or of what follows.
abbrev pub first_of : Items → Ptr → Ptr
first_of [] after = after
first_of ((p, _) ∷ xs) after = p

-- The address of the last node, or of what stands before.
abbrev pub last_of : Ptr → Items → Ptr
last_of before [] = before
last_of before ((p, _) ∷ xs) = last_of p xs

abbrev pub has : Ptr → Items → Bool
has a [] = false
has a ((p, _) ∷ xs) = (a == p) || has a xs

-- The addresses are distinct, and none is null.
abbrev pub Distinct : Items → Type 0
Distinct [] = Unit
Distinct ((p, _) ∷ xs) = (p ≢ null) × (has p xs ≡ false) × Distinct xs

abbrev pub node : NodeType → Ptr → Ptr → Ptr → Node
node t next prev content = record { type = t; next = next; prev = prev; content = content }

-- The nodes `xs` are linked both ways; the first has `before` behind it, and the last leads to
-- `after`.
abbrev pub Seg : Cells → NodeType → Ptr → Items → Ptr → Type 0
Seg c t before [] after = Unit
Seg c t before ((p, d) ∷ xs) after =
    (c p ≡ some (node t (first_of xs after) before d)) × Seg c t p xs after

-- A change that spares the addresses of the segment.
pub frame :
    (c c' : Cells) (t : NodeType) (before : Ptr) (xs : Items) (after : Ptr)
    → Seg c t before xs after
    → ((a : Ptr) → has a xs ≡ true → c' a ≡ c a)
    → Seg c' t before xs after
frame c c' t before [] after s same = tt
frame c c' t before ((p, d) ∷ xs) after s same =
    (same p (ground arith) ∙ s.0, frame c c' t p xs after s.1 (λ a i. same a (ground arith)))

pub frame-write :
    (c : Cells) (t : NodeType) (before : Ptr) (xs : Items) (after : Ptr) (a : Ptr) (n : Option Node)
    → Seg c t before xs after
    → has a xs ≡ false
    → Seg (write c a n) t before xs after
unfolding write
frame-write c t before xs after a n s out = frame c _ t before xs after s (ground arith)

pub first_of-append :
    (xs ys : Items) (after : Ptr) → first_of (xs ++ ys) after ≡ first_of xs (first_of ys after)
first_of-append [] ys after = refl
first_of-append (x ∷ xs) ys after = refl

pub last_of-append :
    (before : Ptr) (xs ys : Items) → last_of before (xs ++ ys) ≡ last_of (last_of before xs) ys
last_of-append before [] ys = refl
last_of-append before ((p, d) ∷ xs) ys = last_of-append p xs ys

pub append :
    (c : Cells) (t : NodeType) (before : Ptr) (xs ys : Items) (after : Ptr)
    → Seg c t before xs (first_of ys after)
    → Seg c t (last_of before xs) ys after
    → Seg c t before (xs ++ ys) after
append c t before [] ys after s s' = s'
append c t before ((p, d) ∷ xs) ys after s s' =
    (rw (first_of-append xs ys after) s.0, append c t p xs ys after s.1 s')

pub split_left :
    (c : Cells) (t : NodeType) (before : Ptr) (xs ys : Items) (after : Ptr)
    → Seg c t before (xs ++ ys) after
    → Seg c t before xs (first_of ys after)
split_left c t before [] ys after s = tt
split_left c t before ((p, d) ∷ xs) ys after s =
    (rw (first_of-append xs ys after) at s.0, split_left c t p xs ys after s.1)

pub split_right :
    (c : Cells) (t : NodeType) (before : Ptr) (xs ys : Items) (after : Ptr)
    → Seg c t before (xs ++ ys) after
    → Seg c t (last_of before xs) ys after
split_right c t before [] ys after s = s
split_right c t before ((p, d) ∷ xs) ys after s = split_right c t p xs ys after s.1
