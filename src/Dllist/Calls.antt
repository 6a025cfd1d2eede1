-- ===== src/Dllist/Calls.antt =====
-- Each call of src/dllist.c on a list of known nodes does what Dllist/Spec promises.
use mathlib.Core.Path.{subst}
use s6_projet_reseau.Common.{
  ℕ, zero, suc, ◌<◌, ◌^◌, refl, sym, ap, ◌∙◌, arith, [], ◌∷◌, ◌++◌, length, length-append, take,
  inl, inr,
}
use s6_projet_reseau.Common.Run.{Returns}
use s6_projet_reseau.Store.{Ptr, NodeType, Heap, Fresh}
use s6_projet_reseau.Dllist.{Dllist, is_refused}
use s6_projet_reseau.Dllist.Seg.{Items}
use s6_projet_reseau.Dllist.Rep.{IsDllist}
use s6_projet_reseau.Dllist.Added.{IsFresh}
use s6_projet_reseau.Dllist.Push.{dllist_push_back-append, dllist_push_front-cons}
use s6_projet_reseau.Dllist.Insert.{insert_end, dllist_insert-at}
use s6_projet_reseau.Dllist.Typed.{
  dllist_push_back-OfType, dllist_push_front-OfType, dllist_insert-OfType, dllist_remove-type,
  dllist_pop_back-type, dllist_pop_front-type,
}
use s6_projet_reseau.Dllist.Remove.{dllist_remove-at}
use s6_projet_reseau.Dllist.Pop.{dllist_pop_back-snoc}
use s6_projet_reseau.Dllist.PopFront.{dllist_pop_front-cons}
use s6_projet_reseau.Dllist.Spec.{Call, remove_nth, promised, perform}
use s6_projet_reseau.Dllist.Sequence.{
  contents, contents-append, Represents, insert_nth-append, insert_nth-end, remove_nth-append,
  remove_nth-end, remove_last-append, split_at, split_last, in_or_behind,
}
use s6_projet_reseau.Dllist.Keeps.{
  is_refused-IsAccepted, Keeps, added-Keeps, taken-Keeps, untaken-Keeps, IsFreshFor,
  push_back-refused, push_front-refused, insert-refused, remove-behind, pop_back-empty,
  pop_front-empty,
}

module _ (l : Dllist) (h : Heap) where
  represented : (xs : Items) → IsDllist h l xs → Represents h l (contents xs)
  represented xs is = record { items = xs; is = is; same = refl }

  insert-Keeps :
      (a : Fresh) (i : ℕ) (type : NodeType) (d : Ptr) (xs : Items)
      → IsDllist h l xs
      → IsFresh h a
      → length xs < 2 ^ 31
      → Returns
          (Keeps l (promised (Call.insert a i type d) l.type (contents xs)))
          (perform (Call.insert a i type d) l h)
  insert-Keeps a zero type d xs is fresh small =
      added-Keeps l h (contents xs) (is_refused l type d) ((a.address, d) ∷ xs) _ _
        (represented xs is) (insert-refused a l 0 type d h)
        (λ e. (
          _,
          dllist_insert-at a h l [] xs type d is fresh (is_refused-IsAccepted l type d e)
              (omega arith),
        ))
        refl (dllist_insert-OfType l a 0 type d h)
  insert-Keeps a (suc i) type d xs is fresh small = elim (in_or_behind (suc i) (length xs)) [
    | inl lt ↦
        (let (ys, x, zs, e, f) = split_at (suc i) xs lt in
          added-Keeps l h (contents xs) (is_refused l type d) (ys ++ ((a.address, d) ∷ x ∷ zs)) _ _
            (represented xs is) (insert-refused a l (suc i) type d h)
            (λ k. (
              (a.address, d) ∷ (ys ++ (x ∷ zs)),
              rw f (
                  dllist_insert-at a h l ys (x ∷ zs) type d (rw e at is) fresh
                    (is_refused-IsAccepted l type d k)
                    (omega (arith, small, ap (length {0}) e, length-append {0} ys (x ∷ zs)))),
            ))
            (rw (e, f)
              (contents-append ys ((a.address, d) ∷ x ∷ zs)
                ∙ sym (insert_nth-append ys (x ∷ zs) d)))
            (dllist_insert-OfType l a (suc i) type d h))
    | inr le ↦
        added-Keeps l h (contents xs) (is_refused l type d) (xs ++ ((a.address, d) ∷ [])) _ _
          (represented xs is) (insert-refused a l (suc i) type d h)
          (λ k. (
            _,
            insert_end a h l xs (suc i) type d is fresh (is_refused-IsAccepted l type d k)
                (omega arith) le,
          ))
          (contents-append xs ((a.address, d) ∷ []) ∙ sym (insert_nth-end (suc i) xs d le))
          (dllist_insert-OfType l a (suc i) type d h)
  ]

  remove-Keeps :
      (i : ℕ) (xs : Items)
      → IsDllist h l xs
      → length xs < 2 ^ 31
      → Returns
          (Keeps l (promised (Call.remove i) l.type (contents xs)))
          (perform (Call.remove i) l h)
  remove-Keeps i xs is small = elim (in_or_behind i (length xs)) [
    | inl lt ↦
        (let (ys, x, zs, e, f) = split_at i xs lt in
          taken-Keeps l h x.0 x.1 (ys ++ (x ∷ zs)) (ys ++ zs) (remove_nth i (contents xs)) _
            (rw (e, f) (remove_nth-append ys x.0 x.1 zs))
            (rw f (
              dllist_remove-at h l ys x.0 x.1 zs (rw e at is)
                (omega (arith, small, ap (length {0}) e, length-append {0} ys (x ∷ zs)))))
            (dllist_remove-type l i h))
    | inr le ↦
        untaken-Keeps l h xs (remove_nth i (contents xs)) _ is (remove_nth-end i xs le)
          (remove-behind l i h xs is le)
  ]

  pop_back-Keeps :
      (xs : Items)
      → IsDllist h l xs
      → Returns (Keeps l (promised Call.pop_back l.type (contents xs))) (perform Call.pop_back l h)
  pop_back-Keeps [] is = untaken-Keeps l h [] _ _ is refl (pop_back-empty l h is)
  pop_back-Keeps (x ∷ xs) is =
      let (y, e) = split_last (length xs) (x ∷ xs) refl in
      let front : Items = take (length xs) (x ∷ xs) in
      subst
        (λ zs.
          Returns (Keeps l (promised Call.pop_back l.type (contents zs)))
            (perform Call.pop_back l h))
        (sym e)
        (taken-Keeps l h y.0 y.1 (front ++ (y ∷ [])) front _ _ (remove_last-append front y.0 y.1)
          (dllist_pop_back-snoc h l front y.0 y.1 (rw e at is)) (dllist_pop_back-type l h))

  pop_front-Keeps :
      (xs : Items)
      → IsDllist h l xs
      → Returns
          (Keeps l (promised Call.pop_front l.type (contents xs)))
          (perform Call.pop_front l h)
  pop_front-Keeps [] is = untaken-Keeps l h [] _ _ is refl (pop_front-empty l h is)
  pop_front-Keeps ((p, d) ∷ xs) is =
      taken-Keeps l h p d ((p, d) ∷ xs) xs _ _ refl (dllist_pop_front-cons h l p d xs is)
        (dllist_pop_front-type l h)

  pub items-Keeps :
      (c : Call) (xs : Items)
      → IsDllist h l xs
      → IsFreshFor c h
      → length xs < 2 ^ 31
      → Returns (Keeps l (promised c l.type (contents xs))) (perform c l h)
  items-Keeps (Call.push_back a type d) xs is fresh small =
      added-Keeps l h (contents xs) (is_refused l type d) (xs ++ ((a.address, d) ∷ [])) _ _
        (represented xs is) (push_back-refused a l type d h)
        (λ e.
          (_, dllist_push_back-append a h l xs type d is fresh (is_refused-IsAccepted l type d e)))
        (contents-append xs ((a.address, d) ∷ [])) (dllist_push_back-OfType l a type d h)
  items-Keeps (Call.push_front a type d) xs is fresh small =
      added-Keeps l h (contents xs) (is_refused l type d) ((a.address, d) ∷ xs) _ _
        (represented xs is) (push_front-refused a l type d h)
        (λ e.
          (_, dllist_push_front-cons a h l xs type d is fresh (is_refused-IsAccepted l type d e)))
        refl (dllist_push_front-OfType l a type d h)
  items-Keeps (Call.insert a i type d) xs is fresh small = insert-Keeps a i type d xs is fresh small
  items-Keeps (Call.remove i) xs is fresh small = remove-Keeps i xs is small
  items-Keeps Call.pop_back xs is fresh small = pop_back-Keeps xs is
  items-Keeps Call.pop_front xs is fresh small = pop_front-Keeps xs is
