-- ===== src/Dllist.antt =====
-- The doubly linked list of src/dllist.c, with its constructors and destructors in src/types.c. A
-- `dllist_t *` is an optional header, null if there is none; a function returns the header that it
-- updates. Only the functions that test for a null header take one.
pub mod Seg
pub mod Rep
pub mod Added
pub mod Push
pub mod Removed
pub mod PopFront
pub mod Pop
pub mod Get
pub mod Unlink
pub mod Remove
pub mod Link
pub mod Insert
pub mod Free
pub mod Typed
pub mod Spec
pub mod Sequence
pub mod Keeps
pub mod Calls
pub mod Refine
use s6_projet_reseau.Common.{
  ℕ, zero, suc, ◌+◌, ◌-◌, ◌%◌, ◌^◌, ◌≡◌, Bool, true, false, not, Option, none, some, ◌||◌, ◌&&◌,
  ◌==◌, ltb, leb, if◌then◌else◌,
}
use s6_projet_reseau.Common.Run.{Run, ok, fault, stuck}
use s6_projet_reseau.Store.{
  Ptr, null, NodeType, neighbour, int, string, msg, type_eq, Node, Heap, Fresh, Cmd, pure, ◌>>=◌,
  ◌>>◌, store, load, set_next, set_prev, free, free_data,
}

pub record Dllist : Type 0 where
  pub first : Ptr
  pub last : Ptr
  pub size : ℕ
  pub type : NodeType

unfoldable pub new_dllist : NodeType → Dllist
new_dllist type = record { first = null; last = null; size = 0; type = type }

-- The links of the new node are not assigned.
unfoldable pub new_dllist_node : Fresh → NodeType → Ptr → Cmd Ptr
new_dllist_node a type content h =
    if a.address == null
    then fault
    else (do
      store a.address
          (some (record { type = type; next = a.next; prev = a.prev; content = content }))
      pure a.address)
        h

unfoldable pub dllist_is_empty : Dllist → Bool
dllist_is_empty l = (l.first == null) || (l.last == null)

unfoldable pub dllist_first_node : Dllist → Ptr → Bool × Dllist
dllist_first_node l node =
    if not (l.first == null) || not (l.last == null)
    then (false, l)
    else (true, record l { first = node; last = node; size = l.size + 1 })

unfoldable pub dllist_last_node : Dllist → Bool
dllist_last_node l = l.first == l.last

-- With `erase_data` a string or an integer is freed twice.
unfoldable pub dllist_free_node : Ptr → Bool → Cmd (Unit {0})
dllist_free_node node erase_data = do
  set_next node null
  set_prev node null
  n ← load node
  if erase_data
      then (do
        if type_eq n.type string || type_eq n.type int then free_data n.content else pure tt
        free_data n.content)
      else pure tt
  free node

-- The test at the start of the functions that add.
abbrev pub is_refused : Dllist → NodeType → Ptr → Bool
is_refused l type content = (content == null) || not (type_eq type l.type)

-- The end of dllist_push_back, for a list that has a last node.
unfoldable pub link_back : Dllist → Ptr → Cmd (Bool × Option Dllist)
link_back l node = do
  set_next l.last node
  set_prev node l.last
  pure (true, some (record l { last = node; size = l.size + 1 }))

unfoldable pub dllist_push_back :
    Fresh → Option Dllist → NodeType → Ptr → Cmd (Bool × Option Dllist)
dllist_push_back a none type content = pure (false, none)
dllist_push_back a (some l) type content =
    if is_refused l type content then pure (false, some l) else do
      node ← new_dllist_node a type content
      let (done, l') = dllist_first_node l node
      if done then pure (true, some l') else link_back l' node

unfoldable pub link_front : Dllist → Ptr → Cmd (Bool × Option Dllist)
link_front l node = do
  set_prev l.first node
  set_next node l.first
  pure (true, some (record l { first = node; size = l.size + 1 }))

unfoldable pub dllist_push_front :
    Fresh → Option Dllist → NodeType → Ptr → Cmd (Bool × Option Dllist)
dllist_push_front a none type content = pure (false, none)
dllist_push_front a (some l) type content =
    if is_refused l type content then pure (false, some l) else do
      node ← new_dllist_node a type content
      let (done, l') = dllist_first_node l node
      if done then pure (true, some l') else link_front l' node

-- `list->last = list->last->prev; list->last->next = NULL;`, or an empty list.
unfoldable pub unlink_back : Dllist → Cmd Dllist
unlink_back l =
    if dllist_last_node l
    then pure (record l { first = null; last = null })
    else do n ← load l.last; set_next n.prev null; pure (record l { last = n.prev })

-- The result is the data of the node, null if the list is empty.
unfoldable pub dllist_pop_back : Dllist → Cmd (Ptr × Dllist)
dllist_pop_back l = if dllist_is_empty l then pure (null, l) else do
  n ← load l.last
  l' ← unlink_back l
  dllist_free_node l.last false
  pure (n.content, record l' { size = l'.size - 1 })

unfoldable pub unlink_front : Dllist → Cmd Dllist
unlink_front l =
    if dllist_last_node l
    then pure (record l { first = null; last = null })
    else do n ← load l.first; set_prev n.next null; pure (record l { first = n.next })

unfoldable pub dllist_pop_front : Dllist → Cmd (Ptr × Dllist)
dllist_pop_front l = if dllist_is_empty l then pure (null, l) else do
  n ← load l.first
  l' ← unlink_front l
  dllist_free_node l.first false
  pure (n.content, record l' { size = l'.size - 1 })

-- `k` steps of `n = n->next`.
unfoldable pub follow : ℕ → Ptr → Cmd Ptr
follow zero p = pure p
follow (suc k) p = do n ← load p; follow k n.next

-- `for (int i = 0; i < index; i++, n = n->next)`. The index is a size_t: from 2 ^ 31 on, `i` overflows
-- unless a link faults before.
unfoldable pub walk : ℕ → Ptr → Cmd Ptr
walk index p h = if ltb index (2 ^ 31) then follow index p h else fault

-- Node `n` goes in front of the node at the index.
unfoldable pub link_before : Dllist → Ptr → ℕ → Cmd (Bool × Option Dllist)
link_before l n index = do
  node ← walk index l.first
  here ← load node
  set_next here.prev n
  here ← load node
  set_prev n here.prev
  set_prev node n
  set_next n node
  pure (true, some (record l { size = l.size + 1 }))

-- The index is a size_t, so it is never negative and the branch for that is never taken.
unfoldable pub dllist_insert :
    Fresh → Option Dllist → ℕ → NodeType → Ptr → Cmd (Bool × Option Dllist)
dllist_insert a none index type content = pure (false, none)
dllist_insert a (some l) index type content =
    if is_refused l type content
    then pure (false, some l)
    else if ltb 0 index
    then (if leb l.size index
        then dllist_push_back a (some l) type content
        else (do n ← new_dllist_node a type content; link_before l n index))
    else dllist_push_front a (some l) type content

-- `-(index - 1)` in size_t.
abbrev pub minus_pred : ℕ → ℕ
minus_pred index = (2 ^ 64 - (index - 1)) % 2 ^ 64

-- The removal of a node between two others.
unfoldable pub unlink_at : Dllist → ℕ → Cmd (Ptr × Dllist)
unlink_at l index = do
  p ← walk index l.first
  n ← load p
  set_prev n.next n.prev
  n ← load p
  set_next n.prev n.next
  n ← load p
  dllist_free_node p false
  pure (n.content, record l { size = l.size - 1 })

unfoldable pub dllist_remove : Dllist → ℕ → Cmd (Ptr × Dllist)
dllist_remove l index =
    if dllist_is_empty l
    then pure (null, l)
    else if ltb 0 index && leb l.size index
    then pure (null, l)
    else if (index + 1) % 2 ^ 64 == l.size
    then dllist_pop_back l
    else if (index == 0) || (minus_pred index == l.size)
    then dllist_pop_front l
    else unlink_at l index

-- The data of the node at an address.
unfoldable pub content_of : Ptr → Cmd Ptr
content_of p = do n ← load p; pure n.content

-- At index 0 too the result is the data of the last node.
unfoldable pub dllist_get : Dllist → ℕ → Cmd Ptr
dllist_get l index =
    if dllist_is_empty l
    then pure null
    else if ltb 0 index && leb l.size index
    then pure null
    else if (index + 1) % 2 ^ 64 == l.size
    then content_of l.last
    else if (index == 0) || (minus_pred index == l.size)
    then content_of l.last
    else (do p ← walk index l.first; content_of p)

-- The do-while loop of dllist_empty. The header is not updated.
unfoldable pub empty_loop : ℕ → Ptr → Bool → Cmd (Unit {0})
empty_loop zero tmp erase_data h = stuck
empty_loop (suc fuel) tmp erase_data h =
    (do
      t ← load tmp
      dllist_free_node tmp erase_data
      n ← load t.next
      if n.next == null then pure tt else empty_loop fuel t.next erase_data)
      h

unfoldable pub dllist_empty : Dllist → Bool → Cmd (Unit {0})
dllist_empty l erase_data =
    if (l.first == null) || (l.last == null)
    then pure tt
    else empty_loop (l.size + 1) l.first erase_data

-- `while ((n = n->next)) dllist_free_node(n->prev); dllist_free_node(n)`
unfoldable pub free_loop : ℕ → Ptr → Bool → Cmd (Unit {0})
free_loop zero p erase_data h = stuck
free_loop (suc fuel) p erase_data h =
    (do
      n ← load p
      if n.next == null then dllist_free_node n.next erase_data else (do
        next ← load n.next
        dllist_free_node next.prev erase_data
        free_loop fuel n.next erase_data))
      h

unfoldable pub dllist_free : Dllist → Bool → Cmd (Unit {0})
dllist_free l erase_data =
    if dllist_is_empty l then pure tt else free_loop (l.size + 1) l.first erase_data
