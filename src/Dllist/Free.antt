-- ===== src/Dllist/Free.antt =====
-- dllist_free and dllist_empty, on a list whose last node has no next node.
use s6_projet_reseau.Common.{
  ℕ, zero, suc, ◌+◌, ◌<◌, ◌≡◌, ◌≢◌, refl, sym, ◌∙◌, arith, Bool, false, none, [], ◌∷◌, ◌==◌, length,
  ne→not_==, ◌||◌,
}
use s6_projet_reseau.Common.Run.{ok, fault, Returns, returns, mono}
use s6_projet_reseau.Store.{Ptr, null, NodeType, Heap, load, set_next, write}
use s6_projet_reseau.Store.Steps.{with_cell, write_self, write_ne, load-ok}
use s6_projet_reseau.Dllist.{
  Dllist, dllist_is_empty, dllist_free_node, free_loop, dllist_free, empty_loop, dllist_empty,
}
use s6_projet_reseau.Dllist.Seg.{Items, last_of, has, Distinct, Seg, frame-write}
use s6_projet_reseau.Dllist.Rep.{IsDllist, ne_of_has, has-last_of, first_ne_null, first_holds}
use s6_projet_reseau.Dllist.Removed.{ne_head, not_empty, dllist_free_node-ok}

load-null : (h : Heap) → load null h ≡ fault
unfolding load
load-null h = refl

free_null : (erase_data : Bool) (h : Heap) → dllist_free_node null erase_data h ≡ fault
unfolding dllist_free_node set_next load
free_null erase_data h = refl

-- The node at the front of a segment of two or more goes.
module _ (h : Heap) (t : NodeType) (before p d q e : Ptr) (xs : Items)
    (s : Seg h.cell t before ((p, d) ∷ (q, e) ∷ xs) null)
    (k : Distinct ((p, d) ∷ (q, e) ∷ xs)) where
  abbrev gone : Heap
  gone = with_cell h (write h.cell p none)

  q_ne_p : q ≢ p
  q_ne_p z = ne_head p q e xs k.1 (sym z)

  first_freed : dllist_free_node p false h ≡ ok (tt, gone)
  first_freed = dllist_free_node-ok h p _ k.0 s.0

  rest_kept : Seg gone.cell t p ((q, e) ∷ xs) null
  rest_kept = frame-write h.cell t p ((q, e) ∷ xs) null p none s.1 k.1

free_loop-fault :
    (fuel : ℕ) (h : Heap) (t : NodeType) (before p d : Ptr) (xs : Items)
    → Seg h.cell t before ((p, d) ∷ xs) null
    → Distinct ((p, d) ∷ xs)
    → length xs < fuel
    → free_loop fuel p false h ≡ fault
unfolding free_loop
free_loop-fault zero h t before p d xs s k lt = absurd (omega arith)
free_loop-fault (suc fuel) h t before p d [] s k lt =
    rw (load-ok h p _ k.0 s.0, free_null false h) refl
free_loop-fault (suc fuel) h t before p d ((q, e) ∷ xs) s k lt =
    rw
      (
        load-ok h p _ k.0 s.0,
        ne→not_== q null k.2.0,
        load-ok h q _ k.2.0 s.1.0,
        first_freed h t before p d q e xs s k,
      )
      (free_loop-fault fuel _ t p q e xs (rest_kept h t before p d q e xs s k) k.2 (omega arith))

-- dllist_free of a list with an element whose last node has no next node, without its data:
-- after the other nodes it frees the null pointer that ended its loop, which is undefined.
pub dllist_free-fault :
    (h : Heap) (l : Dllist) (p d : Ptr) (xs : Items)
    → (is : IsDllist h l ((p, d) ∷ xs)) → is.after ≡ null
    → dllist_free l false h ≡ fault
unfolding dllist_free
dllist_free-fault h l p d xs is ends =
    rw (not_empty p d xs is, is.first)
      (free_loop-fault (l.size + 1) h l.type is.before p d xs (rw ends at is.chain) is.distinct
        (omega (arith, is.size)))

-- What is left of a list of two or more: its first node is freed, its last node is not, and no node
-- outside the list is changed.
pub record Emptied (h : Heap) (first last : Ptr) (xs : Items) (h' : Heap) : Type 0 where
  pub first_freed : h'.cell first ≡ none
  pub last_left : h'.cell last ≡ h.cell last
  pub same : (b : Ptr) → has b xs ≡ false → h'.cell b ≡ h.cell b

Emptied-one :
    (h : Heap) (p d q e : Ptr)
    → q ≢ p
    → Emptied h p q ((p, d) ∷ (q, e) ∷ []) (with_cell h (write h.cell p none))
Emptied-one h p d q e ne = record {
  first_freed = write_self h.cell p none;
  last_left = write_ne h.cell p q none ne;
  same = λ b i. write_ne h.cell p b none (ground arith);
}

Emptied-more :
    (h h' : Heap) (p d q last : Ptr) (xs : Items)
    → has p xs ≡ false
    → last ≢ p
    → Emptied (with_cell h (write h.cell p none)) q last xs h'
    → Emptied h p last ((p, d) ∷ xs) h'
Emptied-more h h' p d q last xs out ne r = record {
  first_freed = r.same p out ∙ write_self h.cell p none;
  last_left = r.last_left ∙ write_ne h.cell p last none ne;
  same = λ b i. r.same b (ground arith) ∙ write_ne h.cell p b none (ground arith);
}

empty_loop-Emptied :
    (fuel : ℕ) (h : Heap) (t : NodeType) (before p d q e : Ptr) (xs : Items)
    → Seg h.cell t before ((p, d) ∷ (q, e) ∷ xs) null
    → Distinct ((p, d) ∷ (q, e) ∷ xs)
    → length xs < fuel
    → Returns
        (λ r. Emptied h p (last_of q xs) ((p, d) ∷ (q, e) ∷ xs) r.1)
        (empty_loop fuel p false h)
unfolding empty_loop
empty_loop-Emptied zero h t before p d q e xs s k lt = absurd (omega arith)
empty_loop-Emptied (suc fuel) h t before p d q e [] s k lt =
    rw
      (
        load-ok h p _ k.0 s.0,
        first_freed h t before p d q e [] s k,
        load-ok (gone h t before p d q e [] s k) q _ k.2.0 (rest_kept h t before p d q e [] s k).0,
      )
      (returns (Emptied-one h p d q e (q_ne_p h t before p d q e [] s k)))
empty_loop-Emptied (suc fuel) h t before p d q e ((r, f) ∷ xs) s k lt =
    rw
      (
        load-ok h p _ k.0 s.0,
        first_freed h t before p d q e ((r, f) ∷ xs) s k,
        load-ok (gone h t before p d q e ((r, f) ∷ xs) s k) q _ k.2.0
            (rest_kept h t before p d q e ((r, f) ∷ xs) s k).0,
        ne→not_== r null k.2.2.0,
      )
      (mono
        (empty_loop-Emptied fuel _ t p q e r f xs (rest_kept h t before p d q e ((r, f) ∷ xs) s k)
          k.2 (omega arith))
        (λ a x.
          Emptied-more h _ p d q (last_of r xs) ((q, e) ∷ (r, f) ∷ xs) k.1
            (λ z.
              ne_of_has p (last_of r xs) ((q, e) ∷ (r, f) ∷ xs) k.1 (has-last_of q e ((r, f) ∷ xs))
                (sym z))
            x))

not_null_ends :
    {h : Heap} {l : Dllist} (p d : Ptr) (xs : Items)
    → IsDllist h l ((p, d) ∷ xs)
    → ((l.first == null) || (l.last == null)) ≡ false
unfolding dllist_is_empty
not_null_ends p d xs is = not_empty p d xs is

-- dllist_empty of a list of two or more whose last node has no next node, without its data: the
-- first node is freed, while the header still leads to it, and the last node is not freed.
pub dllist_empty-Emptied :
    (h : Heap) (l : Dllist) (p d q e : Ptr) (xs : Items)
    → (is : IsDllist h l ((p, d) ∷ (q, e) ∷ xs)) → is.after ≡ null
    → Returns (λ r. Emptied h l.first l.last ((p, d) ∷ (q, e) ∷ xs) r.1) (dllist_empty l false h)
unfolding dllist_empty
dllist_empty-Emptied h l p d q e xs is ends =
    rw (not_null_ends p d ((q, e) ∷ xs) is, is.first, is.last)
      (empty_loop-Emptied (l.size + 1) h l.type is.before p d q e xs (rw ends at is.chain)
        is.distinct (omega (arith, is.size)))

-- dllist_empty of a list of one element whose node has no next node: it reads through the null
-- pointer behind that node, which is undefined.
pub dllist_empty-fault :
    (h : Heap) (l : Dllist) (p d : Ptr)
    → (is : IsDllist h l ((p, d) ∷ [])) → is.after ≡ null
    → dllist_empty l false h ≡ fault
unfolding dllist_empty empty_loop
dllist_empty-fault h l p d is ends =
    let one : l.size + 1 ≡ suc 1 = omega (arith, is.size) in
    let ne = first_ne_null p d [] is in
    let holds = first_holds p d [] is in
    rw
      (
        not_null_ends p d [] is,
        one,
        load-ok h l.first _ ne holds,
        dllist_free_node-ok h l.first _ ne holds,
        ends,
        load-null _,
      )
      refl
