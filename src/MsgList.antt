-- ===== src/MsgList.antt =====
-- The messages that are known, and those that wait for each neighbour: src/msg_list.c.
pub mod Text
pub mod Scan
pub mod Known
pub mod Queue
pub mod Add
pub mod Drop
pub mod DropAll
use s6_projet_reseau.Common.{
  ltb, ◌^◌, ℕ, zero, suc, ◌+◌, Bool, true, false, Option, none, some, List, [], ◌∷◌, ◌==◌, ◌&&◌,
  if◌then◌else◌,
}
use s6_projet_reseau.Common.Run
use s6_projet_reseau.Common.Run.{Run, ok, fault, stuck}
use s6_projet_reseau.Store.{Ptr, null, NodeType, Heap, load}
use s6_projet_reseau.Dllist.{Dllist, dllist_push_front, dllist_pop_back, dllist_remove}
use s6_projet_reseau.Wire.Types.{DataBody}
use s6_projet_reseau.Gui.{print_message}
use s6_projet_reseau.Neighbours.{Key, NeighbourEntry, new_data_key, DllistMsg, new_dllist_msg}
use s6_projet_reseau.Shared.{
  Stored, key_string, waiting_msg, Lock, Env, App, Act, pure, ◌>>=◌, ◌>>◌, from_run, on_heap, lock,
  unlock, put_cur, put_msg_map, put_msg_list, get_cur_neighbours, get_msg_map, get_msg_list, cur_of,
  msg_map_of, msg_list_of,
}

-- strncmp of two texts of fewer than 20 bytes.
abbrev pub same_text : List ℕ → List ℕ → Bool
same_text [] [] = true
same_text [] (y ∷ ys) = false
same_text (x ∷ xs) [] = false
same_text (x ∷ xs) (y ∷ ys) = (x == y) && same_text xs ys

-- `i++` of an int.
unfoldable pub int_next : ℕ → Run ℕ
int_next i = if ltb (i + 1) (2 ^ 31) then ok (i + 1) else fault

-- The place of a node, where the program counts nothing.
abbrev pub place_next : ℕ → Run ℕ
place_next i = ok (i + 1)

-- The walk from a node along the links until `test` of the data of a node holds: the index of that
-- node, which `next` counts, or none if a null link comes first.
unfoldable pub scan : Heap → ℕ → (Ptr → Run Bool) → (ℕ → Run ℕ) → Ptr → ℕ → Run (Option ℕ)
scan h zero test next p index = stuck
scan h (suc fuel) test next p index =
    let rest = scan h fuel test next in
    let here : Run (Option ℕ) = Run.◌>>=◌ (load p h) λ r.
      Run.◌>>=◌ (test r.0.content)
        λ found. if found then ok (some index) else Run.◌>>=◌ (next index) (rest r.0.next) in
    if p == null then ok none else here

-- The test of is_in_msg_list: the data of the node is a key.
unfoldable pub is_key : (Ptr → Option Stored) → Key → Ptr → Run Bool
is_key stored key p = elim (stored p) [ some (key_string k) ↦ ok (same_text k key) | _ ↦ fault ]

unfoldable pub key_of : (Ptr → Option Stored) → Ptr → Run Key
key_of stored p = elim (stored p) [ some (key_string k) ↦ ok k | _ ↦ fault ]

-- The test of rm_nbr_msg: the data of the node is a message that waits.
unfoldable pub is_msg : (Ptr → Option Stored) → ℕ → ℕ → Ptr → Run Bool
is_msg stored id nonce p = elim (stored p) [
  | some (waiting_msg d) ↦ ok ((d.body.sender_id == id) && (d.body.nonce == nonce))
  | _ ↦ fault
]

-- A list with `size` nodes is walked in as many rounds and one.
unfoldable pub rm_nbr_msg :
    (Ptr → Option Stored) → ℕ → ℕ → Dllist → Heap → Run ((Bool × Dllist) × Heap)
rm_nbr_msg stored id nonce list h =
    if list.first == null
    then ok ((false, list), h)
    else (Run.◌>>=◌ (scan h (list.size + 1) (is_msg stored id nonce) int_next list.first 0) λ found.
        elim found [
          | none ↦ ok ((false, list), h)
          | some index ↦ Run.◌>>=◌ (dllist_remove list index h) λ r. ok ((true, r.0.1), r.1)
        ])

module _ {M D : Type 0} (env : Env M D) where
  abbrev pub data_key : DataBody → Key
  data_key b = new_data_key env.print_long env.print_int b.sender_id b.nonce

  -- The list is locked, and stays locked if it is empty.
  unfoldable pub is_in_msg_list : DataBody → Act (App M D) Bool
  is_in_msg_list b = do
    l ← get_msg_list env
    if l.first == null then pure false else (do
      found ← (λ s.
          from_run (scan s.heap (l.size + 1) (is_key s.stored (data_key b)) place_next l.first 0) s)
      unlock Lock.msg_list
      elim found [ none ↦ pure false | some index ↦ pure true ])

  -- A new object that holds `v`.
  unfoldable pub put_stored : Stored → Act (App M D) Ptr
  put_stored v s =
      let p = env.new_object s.stored in
      ok (p, record s { stored = λ q. if q == p then some v else s.stored q })

  -- dllist_push_front on a list of the state, with a node from malloc.
  unfoldable pub push_front : Dllist → NodeType → Ptr → Act (App M D) Dllist
  push_front l type p s =
      Run.◌>>=◌ (dllist_push_front (env.malloc s.heap) (some l) type p s.heap)
        λ r. Run.◌>>=◌ (Run.from_option r.0.1) λ l'. ok (l', record s { heap = r.1 })

  -- `*map_get(m, key)` of a neighbour that the loop over the keys has reached.
  unfoldable pub entry_of : M → Key → Run NeighbourEntry
  entry_of m key = elim (env.nbr_lib.map_get m key) [ some (some e) ↦ ok e | _ ↦ fault ]

  -- The entry is changed through its pointer, so the map holds the changed one.
  abbrev pub put_entry : Key → NeighbourEntry → Act (App M D) (Unit {0})
  put_entry key e = λ s. put_cur (env.nbr_lib.map_set (cur_of env s) key (some e)) s

  -- The body of the loop of add_msg: the lists of the neighbours are of type DLL_MSG.
  unfoldable pub queue_msg : Key → DataBody → Key → Act (App M D) (Unit {0})
  queue_msg msg_key b key = do
    e ← (λ s. from_run (entry_of (cur_of env s) key) s)
    d ← (λ s.
        put_stored
          (waiting_msg (new_dllist_msg (env.random s.stored) (env.time s.stored) msg_key b)) s)
    l ← push_front e.msg_to_send NodeType.int d
    put_entry key (record e { msg_to_send = l })

  unfoldable pub queue_msgs : List Key → Key → DataBody → Act (App M D) (Unit {0})
  queue_msgs [] msg_key b = pure tt
  queue_msgs (key ∷ keys) msg_key b = do queue_msg msg_key b key; queue_msgs keys msg_key b

  -- `print_message(b->data, b->data_len)`
  unfoldable pub show : DataBody → Act (App M D) (Unit {0})
  show b s =
      Run.◌>>=◌ (print_message env.clock env.print_long b.content.bytes b.data_len s.window)
        λ g. ok (tt, record s { window = g })

  unfoldable pub add_msg : DataBody → Act (App M D) Bool
  add_msg b = do
    there ← is_in_msg_list b
    if there then pure false else (do
      p ← put_stored (key_string (data_key b))
      msg ← get_msg_map env
      put_msg_map (env.data_lib.map_set msg (data_key b) b)
      l ← get_msg_list env
      l ← push_front l NodeType.string p
      put_msg_list l
      m ← get_cur_neighbours env
      queue_msgs (env.nbr_lib.map_keys m) (data_key b) b
      show b
      unlock Lock.cur_neighbours
      unlock Lock.msg_map
      unlock Lock.msg_list
      pure true)

  -- The loop of rm_msg over the neighbours.
  unfoldable pub unqueue_msgs : List Key → DataBody → Act (App M D) (Unit {0})
  unqueue_msgs [] body = pure tt
  unqueue_msgs (key ∷ keys) body = do
    e ← (λ s. from_run (entry_of (cur_of env s) key) s)
    r ← (λ s. on_heap (rm_nbr_msg s.stored body.sender_id body.nonce e.msg_to_send) s)
    put_entry key (record e { msg_to_send = r.1 })
    unqueue_msgs keys body

  -- Without a message to remove it releases the lock of the list twice, and that of the map never.
  unfoldable pub rm_msg : Act (App M D) Bool
  rm_msg = do
    l ← get_msg_list env
    data_map ← get_msg_map env
    r ← on_heap (dllist_pop_back l)
    put_msg_list r.1
    if r.0 == null then (do unlock Lock.msg_list; unlock Lock.msg_list; pure false) else (do
      key ← (λ s. from_run (key_of s.stored r.0) s)
      body ← from_run (Run.from_option (env.data_lib.map_get data_map key))
      m ← get_cur_neighbours env
      unqueue_msgs (env.nbr_lib.map_keys m) body
      unlock Lock.msg_list
      unlock Lock.cur_neighbours
      unlock Lock.msg_map
      pure true)

  -- The `n` rounds that are left of the loop of rm_n_msg, at the round `i`.
  unfoldable pub rm_rounds : ℕ → ℕ → Act (App M D) (Unit {0})
  rm_rounds i zero = pure tt
  rm_rounds i (suc n) = do
    removed ← rm_msg
    if removed then (do i ← from_run (int_next i); rm_rounds i n) else pure tt

  unfoldable pub rm_n_msg : ℕ → Act (App M D) (Unit {0})
  rm_n_msg n = rm_rounds 0 n
