-- ===== src/Dllist/Added.antt =====
-- What a call that adds to a list is given, and what it leaves.
use s6_projet_reseau.Common.{◌≡◌, ◌≢◌, arith, Bool, true, false, Option, none, some, ◌==◌, ◌||◌}
use s6_projet_reseau.Common.Run.{ok}
use s6_projet_reseau.Store.{Ptr, null, NodeType, Heap, Fresh, write, type_eq_self}
use s6_projet_reseau.Store.Steps.{with_cell}
use s6_projet_reseau.Dllist.{Dllist, is_refused, new_dllist_node}
use s6_projet_reseau.Dllist.Seg.{Items, has, node}
use s6_projet_reseau.Dllist.Rep.{IsDllist}

-- malloc returned the address of a new object.
pub record IsFresh (h : Heap) (a : Fresh) : Type 0 where
  pub not_null : a.address ≢ null
  pub unused : h.cell a.address ≡ none

-- The call is not refused: the data is not null, and has the type of the list.
pub record IsAccepted (l : Dllist) (type : NodeType) (content : Ptr) : Type 0 where
  pub not_null : content ≢ null
  pub same_type : type ≡ l.type

pub not_refused :
    (l : Dllist) (type : NodeType) (content : Ptr)
    → IsAccepted l type content
    → is_refused l type content ≡ false
not_refused l type content k = rw (k.same_type, type_eq_self l.type) (not_null_or k.not_null)
  where
    not_null_or : content ≢ null → ((content == null) || false) ≡ false
    not_null_or ne = ground arith

-- The outcome of a call that leaves the list `ys` behind the header `l`, and that changes no node
-- but those of `touched`.
pub record Leaves (h : Heap) (touched ys : Items) (l : Dllist) (h' : Heap) : Type 0 where
  pub is : IsDllist h' l ys
  pub same : (q : Ptr) → has q touched ≡ false → h'.cell q ≡ h.cell q
  pub live : h'.live ≡ h.live

abbrev pub Pushed : Heap → Items → Items → (Bool × Option Dllist) × Heap → Type 0
Pushed h touched ys r = (l : Dllist) × (r.0 ≡ (true, some l)) × Leaves h touched ys l r.1

-- The heap with the new node, whose links are not assigned yet.
abbrev pub added : Fresh → Heap → NodeType → Ptr → Heap
added a h type content =
    with_cell h (write h.cell a.address (some (node type a.next a.prev content)))

pub new_dllist_node-ok :
    (a : Fresh) (h : Heap) (type : NodeType) (content : Ptr)
    → IsFresh h a
    → new_dllist_node a type content h ≡ ok (a.address, added a h type content)
unfolding new_dllist_node
new_dllist_node-ok a h type content fresh =
    let ne : (a.address == null) ≡ false = ground (arith, fresh.not_null) in rw ne
