-- ===== src/Store/Steps.antt =====
-- The commands at an address that holds a node.
use s6_projet_reseau.Common.{◌≡◌, ◌≢◌, arith, false, Option, none, some, ◌==◌}
use s6_projet_reseau.Common.Run.{ok}
use s6_projet_reseau.Store.{Ptr, null, Node, Cells, Heap, write, load, set_next, set_prev, free}

abbrev pub with_cell : Heap → Cells → Heap
with_cell h c = record h { cell = c }

pub write_self : (c : Cells) (p : Ptr) (n : Option Node) → write c p n p ≡ n
unfolding write
write_self c p n = ground arith

pub write_ne : (c : Cells) (p q : Ptr) (n : Option Node) → q ≢ p → write c p n q ≡ c q
unfolding write
write_ne c p q n h = ground arith

module _ (h : Heap) (p : Ptr) (n : Node) (ne : p ≢ null) (e : h.cell p ≡ some n) where
  pub load-ok : load p h ≡ ok (n, h)
  unfolding load
  load-ok = let not_null : (p == null) ≡ false = ground arith in rw (not_null, e)

  pub set_next-ok :
      (q : Ptr)
      → set_next p q h ≡ ok (tt, with_cell h (write h.cell p (some (record n { next = q }))))
  unfolding set_next
  set_next-ok q = rw load-ok

  pub set_prev-ok :
      (q : Ptr)
      → set_prev p q h ≡ ok (tt, with_cell h (write h.cell p (some (record n { prev = q }))))
  unfolding set_prev
  set_prev-ok q = rw load-ok

  pub free-ok : free p h ≡ ok (tt, with_cell h (write h.cell p none))
  unfolding free
  free-ok = rw load-ok
