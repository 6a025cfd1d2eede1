-- ===== src/Dllist/Sequence.antt =====
-- The sequence of the data of a list, and what is done to it at an index.
use s6_projet_reseau.Common.{
  take, ℕ, zero, suc, ◌<◌, ◌≤◌, ◌≡◌, refl, ap, arith, List, [], ◌∷◌, ◌++◌, length, ◌⊎◌,
}
use s6_projet_reseau.Store.{Ptr, null, Heap}
use s6_projet_reseau.Dllist.{Dllist}
use s6_projet_reseau.Dllist.Seg.{Items}
use s6_projet_reseau.Dllist.Rep.{IsDllist}
use s6_projet_reseau.Dllist.Spec.{insert_nth, remove_nth, remove_last}

-- The data of the elements, without the addresses of their nodes.
abbrev pub contents : Items → List Ptr
contents [] = []
contents ((p, d) ∷ xs) = d ∷ contents xs

pub contents-append : (xs ys : Items) → contents (xs ++ ys) ≡ contents xs ++ contents ys
contents-append [] ys = refl
contents-append ((p, d) ∷ xs) ys = ap (λ ds. d ∷ ds) (contents-append xs ys)

pub length-contents : (xs : Items) → length (contents xs) ≡ length xs
length-contents [] = refl
length-contents ((p, d) ∷ xs) = ap suc (length-contents xs)

pub record Represents (h : Heap) (l : Dllist) (ds : List Ptr) : Type 0 where
  pub items : Items
  pub is : IsDllist h l items
  pub same : contents items ≡ ds

pub insert_nth-append :
    (xs ys : Items) (d : Ptr)
    → insert_nth (length xs) d (contents (xs ++ ys)) ≡ contents xs ++ (d ∷ contents ys)
insert_nth-append [] [] d = refl
insert_nth-append [] (y ∷ ys) d = refl
insert_nth-append ((p, e) ∷ xs) ys d = ap (λ ds. e ∷ ds) (insert_nth-append xs ys d)

pub insert_nth-end :
    (i : ℕ) (xs : Items) (d : Ptr)
    → length xs ≤ i
    → insert_nth i d (contents xs) ≡ contents xs ++ (d ∷ [])
insert_nth-end zero [] d le = refl
insert_nth-end zero (x ∷ xs) d le = absurd (omega arith)
insert_nth-end (suc i) [] d le = refl
insert_nth-end (suc i) ((p, e) ∷ xs) d le = ap (λ ds. e ∷ ds) (insert_nth-end i xs d (omega arith))

pub remove_nth-append :
    (xs : Items) (q e : Ptr) (ys : Items)
    → remove_nth (length xs) (contents (xs ++ ((q, e) ∷ ys))) ≡ (e, contents (xs ++ ys))
remove_nth-append [] q e ys = refl
remove_nth-append ((p, d) ∷ xs) q e ys =
    ap (λ (r : Ptr × List Ptr). (r.0, d ∷ r.1)) (remove_nth-append xs q e ys)

pub remove_nth-end :
    (i : ℕ) (xs : Items) → length xs ≤ i → remove_nth i (contents xs) ≡ (null, contents xs)
remove_nth-end i [] le = refl
remove_nth-end zero (x ∷ xs) le = absurd (omega arith)
remove_nth-end (suc i) ((p, d) ∷ xs) le =
    ap (λ (r : Ptr × List Ptr). (r.0, d ∷ r.1)) (remove_nth-end i xs (omega arith))

pub remove_last-append :
    (xs : Items) (q e : Ptr) → remove_last (contents (xs ++ ((q, e) ∷ []))) ≡ (e, contents xs)
remove_last-append [] q e = refl
remove_last-append ((p, d) ∷ []) q e = refl
remove_last-append ((p, d) ∷ (r, f) ∷ xs) q e =
    ap (λ (s : Ptr × List Ptr). (s.0, d ∷ s.1)) (remove_last-append ((r, f) ∷ xs) q e)

-- An index of an element splits the list there.
pub split_at :
    (i : ℕ) (xs : Items)
    → i < length xs
    → (ys : Items) × (x : Ptr × Ptr) × (zs : Items) × (xs ≡ ys ++ (x ∷ zs)) × (i ≡ length ys)
split_at i [] lt = absurd (omega arith)
split_at zero (x ∷ xs) lt = ([], x, xs, refl, refl)
split_at (suc i) (x ∷ xs) lt =
    let (ys, y, zs, e, f) = split_at i xs (omega arith) in
    (x ∷ ys, y, zs, ap (λ us. x ∷ us) e, ap suc f)

pub in_or_behind : (i n : ℕ) → (i < n) ⊎ (n ≤ i)
in_or_behind i n = ground arith

-- The last of the elements.
pub split_last :
    (n : ℕ) (xs : Items) → length xs ≡ suc n → (x : Ptr × Ptr) × (xs ≡ take n xs ++ (x ∷ []))
split_last n [] e = absurd (omega (arith, e))
split_last zero (x ∷ []) e = (x, refl)
split_last zero (x ∷ y ∷ xs) e = absurd (omega (arith, e))
split_last (suc n) (x ∷ xs) e =
    let (y, f) = split_last n xs (omega (arith, e)) in (y, ap (λ ys. x ∷ ys) f)
