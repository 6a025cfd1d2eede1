-- ===== src/Dllist/Typed.antt =====
-- No operation changes the type of a list.
use s6_projet_reseau.Common.{
  Bool-cases, inl, inr, ℕ, ◌+◌, ◌%◌, ◌^◌, ◌≡◌, refl, false, Option, none, some, ◌==◌, not, ◌||◌,
  ◌&&◌, ltb, leb,
}
use s6_projet_reseau.Common.Holds.{Holds-either, Holds, holds, Holds-bind, any}
use s6_projet_reseau.Store.{load, set_next, set_prev, null, Ptr, NodeType, Heap, Fresh}
use s6_projet_reseau.Dllist.{
  Dllist, is_refused, dllist_is_empty, dllist_first_node, dllist_last_node, new_dllist_node,
  link_back, link_front, link_before, unlink_back, unlink_front, unlink_at, walk, dllist_free_node,
  minus_pred, dllist_push_back, dllist_push_front, dllist_insert, dllist_remove, dllist_pop_back,
  dllist_pop_front,
}

-- The header that is returned has the type of `l`.
abbrev pub OfType : Dllist → Option Dllist → Type 0
OfType l none = Unit
OfType l (some l') = l'.type ≡ l.type

module _ (l : Dllist) where
  dllist_first_node-type : (node : Ptr) → (dllist_first_node l node).1.type ≡ l.type
  unfolding dllist_first_node
  dllist_first_node-type node = elim (Bool-cases (not (l.first == null) || not (l.last == null))) [
    | inl e ↦ rw e refl
    | inr e ↦ rw e refl
  ]

  pub dllist_push_back-OfType :
      (a : Fresh) (type : NodeType) (d : Ptr) (h : Heap)
      → Holds (λ r. OfType l r.0.1) (dllist_push_back a (some l) type d h)
  unfolding dllist_push_back link_back
  dllist_push_back-OfType a type d h = Holds-either (is_refused l type d) _ _ h (holds refl) (
      Holds-bind (any (new_dllist_node a type d h)) λ (node, h1) _.
        let (done, l') = dllist_first_node l node in
        let same = dllist_first_node-type node in
        Holds-either done _ _ h1 (holds same) (
          Holds-bind (any (set_next l'.last node h1))
            λ (_, h2) _. Holds-bind (any (set_prev node l'.last h2)) λ (_, h3) _. holds same))

  pub dllist_push_front-OfType :
      (a : Fresh) (type : NodeType) (d : Ptr) (h : Heap)
      → Holds (λ r. OfType l r.0.1) (dllist_push_front a (some l) type d h)
  unfolding dllist_push_front link_front
  dllist_push_front-OfType a type d h = Holds-either (is_refused l type d) _ _ h (holds refl) (
      Holds-bind (any (new_dllist_node a type d h)) λ (node, h1) _.
        let (done, l') = dllist_first_node l node in
        let same = dllist_first_node-type node in
        Holds-either done _ _ h1 (holds same) (
          Holds-bind (any (set_prev l'.first node h1))
            λ (_, h2) _. Holds-bind (any (set_next node l'.first h2)) λ (_, h3) _. holds same))

  link_before-OfType :
      (n : Ptr) (index : ℕ) (h : Heap) → Holds (λ r. OfType l r.0.1) (link_before l n index h)
  unfolding link_before
  link_before-OfType n index h = Holds-bind (any (walk index l.first h)) λ (node, h1) _.
      Holds-bind (any (load node h1)) λ (here, h2) _.
        Holds-bind (any (set_next here.prev n h2)) λ (_, h3) _.
          Holds-bind (any (load node h3)) λ (here, h4) _.
            Holds-bind (any (set_prev n here.prev h4)) λ (_, h5) _.
              Holds-bind (any (set_prev node n h5))
                λ (_, h6) _. Holds-bind (any (set_next n node h6)) λ (_, h7) _. holds refl

  pub dllist_insert-OfType :
      (a : Fresh) (index : ℕ) (type : NodeType) (d : Ptr) (h : Heap)
      → Holds (λ r. OfType l r.0.1) (dllist_insert a (some l) index type d h)
  unfolding dllist_insert
  dllist_insert-OfType a index type d h = Holds-either (is_refused l type d) _ _ h (holds refl) (
      Holds-either (ltb 0 index) _ _ h
        (Holds-either (leb l.size index) _ _ h (dllist_push_back-OfType a type d h) (
          Holds-bind (any (new_dllist_node a type d h)) λ (n, h1) _. link_before-OfType n index h1))
        (dllist_push_front-OfType a type d h))

  unlink_back-type : (h : Heap) → Holds (λ r. r.0.type ≡ l.type) (unlink_back l h)
  unfolding unlink_back
  unlink_back-type h = Holds-either (dllist_last_node l) _ _ h (holds refl) (
      Holds-bind (any (load l.last h))
        λ (n, h1) _. Holds-bind (any (set_next n.prev null h1)) λ (_, h2) _. holds refl)

  unlink_front-type : (h : Heap) → Holds (λ r. r.0.type ≡ l.type) (unlink_front l h)
  unfolding unlink_front
  unlink_front-type h = Holds-either (dllist_last_node l) _ _ h (holds refl) (
      Holds-bind (any (load l.first h))
        λ (n, h1) _. Holds-bind (any (set_prev n.next null h1)) λ (_, h2) _. holds refl)

  pub dllist_pop_back-type : (h : Heap) → Holds (λ r. r.0.1.type ≡ l.type) (dllist_pop_back l h)
  unfolding dllist_pop_back
  dllist_pop_back-type h = Holds-either (dllist_is_empty l) _ _ h (holds refl) (
      Holds-bind (any (load l.last h)) λ (n, h1) _.
        Holds-bind (unlink_back-type h1) λ (l', h2) same.
          Holds-bind (any (dllist_free_node l.last false h2)) λ (_, h3) _. holds same)

  pub dllist_pop_front-type : (h : Heap) → Holds (λ r. r.0.1.type ≡ l.type) (dllist_pop_front l h)
  unfolding dllist_pop_front
  dllist_pop_front-type h = Holds-either (dllist_is_empty l) _ _ h (holds refl) (
      Holds-bind (any (load l.first h)) λ (n, h1) _.
        Holds-bind (unlink_front-type h1) λ (l', h2) same.
          Holds-bind (any (dllist_free_node l.first false h2)) λ (_, h3) _. holds same)

  unlink_at-type : (i : ℕ) (h : Heap) → Holds (λ r. r.0.1.type ≡ l.type) (unlink_at l i h)
  unfolding unlink_at
  unlink_at-type i h = Holds-bind (any (walk i l.first h)) λ (p, h1) _.
      Holds-bind (any (load p h1)) λ (n, h2) _.
        Holds-bind (any (set_prev n.next n.prev h2)) λ (_, h3) _.
          Holds-bind (any (load p h3)) λ (n, h4) _.
            Holds-bind (any (set_next n.prev n.next h4)) λ (_, h5) _.
              Holds-bind (any (load p h5))
                λ (n, h6) _. Holds-bind (any (dllist_free_node p false h6)) λ (_, h7) _. holds refl

  pub dllist_remove-type :
      (i : ℕ) (h : Heap) → Holds (λ r. r.0.1.type ≡ l.type) (dllist_remove l i h)
  unfolding dllist_remove
  dllist_remove-type i h = Holds-either (dllist_is_empty l) _ _ h (holds refl) (
      Holds-either (ltb 0 i && leb l.size i) _ _ h (holds refl) (
        Holds-either ((i + 1) % 2 ^ 64 == l.size) _ _ h (dllist_pop_back-type h) (
          Holds-either ((i == 0) || (minus_pred i == l.size)) _ _ h (dllist_pop_front-type h)
            (unlink_at-type i h))))
