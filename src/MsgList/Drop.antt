-- ===== src/MsgList/Drop.antt =====
-- rm_msg, while no message waits for a neighbour.
use s6_projet_reseau.Common.{
  ℕ, Option, false, ◌==◌, arith, ◌≡◌, ◌≢◌, refl, ◌∙◌, Bool, true, none, some, List, [], ◌∷◌, ◌++◌,
  All, ne→not_==,
}
use s6_projet_reseau.Common.Run
use s6_projet_reseau.Common.Run.{ok, fault, Returns, returns}
use s6_projet_reseau.Store.{Ptr, null, Heap}
use s6_projet_reseau.Dllist.{Dllist, dllist_is_empty, dllist_pop_back}
use s6_projet_reseau.Dllist.Seg.{Items}
use s6_projet_reseau.Dllist.Rep.{IsDllist}
use s6_projet_reseau.Dllist.Removed.{Removed}
use s6_projet_reseau.Dllist.Pop.{dllist_pop_back-snoc}
use s6_projet_reseau.Wire.Types.{DataBody}
use s6_projet_reseau.Neighbours.{Key, NeighbourEntry, IsMapLib}
use s6_projet_reseau.Shared.{
  Stored, key_string, Lock, Action, acquire, release, no_locks, Env, App, lock, unlock, cur_of,
  pot_of, msg_list_of, msg_map_of, get_msg_list, get_msg_map, get_cur_neighbours,
}
use s6_projet_reseau.Threads.{rev_onto}
use s6_projet_reseau.MsgList.{key_of, rm_nbr_msg, unqueue_msgs, rm_msg}
use s6_projet_reseau.MsgList.Queue.{HasEntry, entry_of-there, set_same, All-same, keys-HasEntry}

-- No message waits for the neighbour.
abbrev pub IsIdle : NeighbourEntry → Type 0
IsIdle e = e.msg_to_send.first ≡ null

-- What rm_msg does to the mutexes when there is a message.
abbrev pub rm_msg_locks : List Action
rm_msg_locks =
    acquire Lock.msg_list
    ∷ acquire Lock.msg_map
    ∷ acquire Lock.cur_neighbours
    ∷ release Lock.msg_list
    ∷ release Lock.cur_neighbours
    ∷ release Lock.msg_map
    ∷ []

pub rm_nbr_msg-idle :
    (stored : Ptr → Option Stored) (id nonce : ℕ) (l : Dllist) (h : Heap)
    → l.first ≡ null
    → rm_nbr_msg stored id nonce l h ≡ ok ((false, l), h)
unfolding rm_nbr_msg
rm_nbr_msg-idle stored id nonce l h e =
    let stop : (l.first == null) ≡ true = ground (arith, e) in rw stop refl

key_of-there :
    (stored : Ptr → Option Stored) (p : Ptr) (key : Key)
    → stored p ≡ some (key_string key)
    → key_of stored p ≡ ok key
unfolding key_of
key_of-there stored p key e = rw (e, key_of) refl

module _ {M D : Type 0} (env : Env M D) where
  -- The loop of rm_msg changes no neighbour for which no message waits.
  unqueue_msgs-idle :
      (b : DataBody) (s : App M D)
      → IsMapLib env.nbr_lib
      → (m : M) (keys : List Key) → All (HasEntry env IsIdle m) keys
      → (r : M) × (unqueue_msgs env keys b (record s { g_cur_neighbours = some m })
          ≡ ok (tt, record s { g_cur_neighbours = some r }))
        × ((k : Key) → env.nbr_lib.map_get r k ≡ env.nbr_lib.map_get m k)
  unfolding unqueue_msgs
  unqueue_msgs-idle b s laws m [] all = (m, refl, λ k. refl)
  unqueue_msgs-idle b s laws m (key ∷ keys) ((e, there, idle), all) =
      let same = set_same env m key e laws there in
      let (r, run, kept) =
        unqueue_msgs-idle b s laws (env.nbr_lib.map_set m key (some e)) keys
          (All-same env IsIdle same keys all) in
      (
        r,
        rw
            (
              entry_of-there env m key e there,
              rm_nbr_msg-idle s.stored b.sender_id b.nonce e.msg_to_send s.heap idle,
            )
            run,
        λ k. kept k ∙ same k,
      )

  module _ (s : App M D) where
    -- The message of the last key is gone from the list, and from nothing else.
    pub record IsDropped (xs : Items) (q e : Ptr) (r : Bool × App M D) : Type 0 where
      pub dropped : r.0 ≡ true
      pub unlocked : r.1.locks ≡ no_locks
      pub traced : r.1.trace ≡ rev_onto rm_msg_locks s.trace
      pub list : Removed s.heap q e (xs ++ ((q, e) ∷ [])) xs ((e, msg_list_of env r.1), r.1.heap)
      pub map_kept : msg_map_of env r.1 ≡ msg_map_of env s
      pub neighbours_kept :
          (k : Key) → env.nbr_lib.map_get (cur_of env r.1) k ≡ env.nbr_lib.map_get (cur_of env s) k
      pub stored_kept : r.1.stored ≡ s.stored
      pub potential_same : pot_of env r.1 ≡ pot_of env s
      pub net_same : r.1.net ≡ s.net
      pub window_same : r.1.window ≡ s.window

    -- rm_msg with no mutex held, on a list of messages whose last key is that of a message in the
    -- map, where the hash map is as documented and no message waits for a current neighbour. The
    -- result is true, the last key, which is the oldest, leaves the list and its node is freed; the
    -- message itself stays in the map, the neighbours, current and potential, the objects, the socket,
    -- the window and the nodes outside the list are the same, and the thread took and released the
    -- mutexes in the order of rm_msg_locks and holds none.
    pub rm_msg-oldest :
        (xs : Items) (q e : Ptr) (key : Key) (b : DataBody)
        → IsDllist s.heap (msg_list_of env s) (xs ++ ((q, e) ∷ []))
        → e ≢ null
        → s.stored e ≡ some (key_string key)
        → env.data_lib.map_get (msg_map_of env s) key ≡ some b
        → s.locks ≡ no_locks
        → IsMapLib env.nbr_lib
        → ((k : Key)
            → env.nbr_lib.map_get (cur_of env s) k ≢ none
            → HasEntry env IsIdle (cur_of env s) k)
        → Returns (IsDropped xs q e) (rm_msg env s)
    unfolding rm_msg get_msg_list get_msg_map get_cur_neighbours lock unlock
    rm_msg-oldest xs q e key b is ne holds there free laws idle =
        let (((d, l), h), popped, gone) =
          Run.result (dllist_pop_back-snoc s.heap (msg_list_of env s) xs q e is) in
        let same_data : d ≡ e = gone.data_is in
        let s' : App M D = record s {
          heap = h;
          g_msg_list = some l;
          g_msg_map = some (msg_map_of env s);
          locks = record no_locks { cur_held = true; map_held = true; list_held = true };
          trace =
              acquire Lock.cur_neighbours ∷ acquire Lock.msg_map ∷ acquire Lock.msg_list ∷ s.trace;
        } in
        let (m, run, kept) =
          unqueue_msgs-idle b s' laws (cur_of env s) (env.nbr_lib.map_keys (cur_of env s))
            (keys-HasEntry env IsIdle (cur_of env s) laws idle) in
        rw
          (
            free,
            popped,
            same_data,
            ne→not_== e null ne,
            key_of-there s.stored e key holds,
            there,
            run,
          )
          (returns (record {
            dropped = refl;
            unlocked = refl;
            traced = refl;
            list = record { data_is = refl; leaves = gone.leaves; freed = gone.freed };
            map_kept = refl;
            neighbours_kept = kept;
            stored_kept = refl;
            potential_same = refl;
            net_same = refl;
            window_same = refl;
          }))

    -- rm_msg with no mutex held, on an empty list of messages, faults: it releases msg_list_lock a
    -- second time.
    rm_msg-fault :
        IsDllist s.heap (msg_list_of env s) [] → s.locks ≡ no_locks → rm_msg env s ≡ fault
    unfolding rm_msg get_msg_list get_msg_map lock unlock dllist_pop_back dllist_is_empty
    rm_msg-fault is free = rw (free, is.first) refl
