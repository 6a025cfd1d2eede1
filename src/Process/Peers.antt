-- ===== src/Process/Peers.antt =====
-- process_data, process_ack and process_go_away.
use s6_projet_reseau.Common.{
  ℕ, suc, ◌+◌, ◌^◌, ◌<◌, ◌≡◌, ◌≢◌, refl, true, false, none, some, List, ◌∷◌, ◌++◌, length,
}
use s6_projet_reseau.Common.Run
use s6_projet_reseau.Common.Run.{Run, ok, fault, Returns, returns}
use s6_projet_reseau.Store.{Ptr, null, Heap}
use s6_projet_reseau.Dllist.{Dllist, dllist_empty}
use s6_projet_reseau.Dllist.Seg.{Items}
use s6_projet_reseau.Dllist.Rep.{IsDllist}
use s6_projet_reseau.Dllist.Removed.{Removed}
use s6_projet_reseau.Wire.Types.{DataBody, AckBody, GoAwayBody, Sockaddr}
use s6_projet_reseau.Connect.Sent.{send_ack-fault}
use s6_projet_reseau.Neighbours.{NeighbourEntry, Key, IsMapLib, entry_key}
use s6_projet_reseau.Neighbours.Transfer.{Moved, map_transfer_neighbour-moves}
use s6_projet_reseau.Shared.{
  no_locks, Env, App, lock, unlock, cur_of, pot_of, get_cur_neighbours, get_pot_neighbours,
}
use s6_projet_reseau.MsgList.{is_msg}
use s6_projet_reseau.MsgList.Scan.{Misses, rm_nbr_msg-first}
use s6_projet_reseau.Threads.{Event, event_locks, rev_onto}
use s6_projet_reseau.Process.{sock_key, process_data, process_ack, process_go_away, handlers}

dllist_empty-null : (l : Dllist) (h : Heap) → l.first ≡ null → dllist_empty l false h ≡ ok (tt, h)
unfolding dllist_empty
dllist_empty-null l h e = rw e refl

module _ {M D : Type 0} (env : Env M D) (peer : Sockaddr) (s : App M D) where
  -- process_data over an open socket that accepts what is sent to the peer: it never comes to add_msg,
  -- since send_ack frees a local variable.
  pub process_data-fault :
      (b : DataBody)
      → s.net.is_open ≡ true
      → ((text : List ℕ) → env.accepts peer text ≡ true)
      → b.sender_id < 2 ^ 64
      → b.nonce < 2 ^ 32
      → process_data env b peer s ≡ fault
  unfolding process_data
  process_data-fault b is_open accepted i n =
      rw
        (send_ack-fault (handlers env peer) env.machine env.accepts peer s.net is_open accepted
          b.sender_id b.nonce i n)
        refl

  -- process_ack with no mutex held, of a peer that is not a current neighbour: it reads through null.
  pub process_ack-fault :
      (b : AckBody)
      → env.nbr_lib.map_get (cur_of env s) (sock_key env peer) ≡ none
      → s.locks ≡ no_locks
      → process_ack env b peer s ≡ fault
  unfolding process_ack get_cur_neighbours lock
  process_ack-fault b absent free = rw (free, absent) refl

  -- process_go_away with no mutex held, of a current neighbour to which no message waits to be sent:
  -- the neighbour becomes a potential one, where no potential one has the key that its entry is stored
  -- under. No other neighbour changes. The thread took and released the mutexes in the order of
  -- event_locks, and holds none.
  pub process_go_away-moves :
      (b : GoAwayBody) (e : NeighbourEntry)
      → IsMapLib env.nbr_lib
      → env.nbr_lib.map_get (cur_of env s) (sock_key env peer) ≡ some (some e)
      → e.msg_to_send.first ≡ null
      → env.nbr_lib.map_get (pot_of env s) (entry_key env.nbr_lib env.machine.order env.decimal e)
        ≡ none
      → s.locks ≡ no_locks
      → Returns
          (λ r.
            Moved env.nbr_lib
              (cur_of env s)
              (pot_of env s)
              (sock_key env peer)
              (entry_key env.nbr_lib env.machine.order env.decimal e)
              e
              (1, cur_of env r.1, pot_of env r.1)
            × (r.1.locks ≡ no_locks)
            × (r.1.trace ≡ rev_onto (event_locks Event.go_away) s.trace))
          (process_go_away env b peer s)
  unfolding process_go_away get_cur_neighbours get_pot_neighbours lock unlock
  process_go_away-moves b e laws here empty room free =
      let (r, moves, moved) = Run.result (
        map_transfer_neighbour-moves env.nbr_lib laws env.machine.order env.decimal (cur_of env s)
          (pot_of env s) (sock_key env peer) e here room) in
      rw (free, here, dllist_empty-null e.msg_to_send s.heap empty, moves)
        (returns (
          record {
            done = refl;
            gone = moved.gone;
            there = moved.there;
            source_same = moved.source_same;
            target_same = moved.target_same;
          },
          refl,
          refl,
        ))

  -- What process_ack leaves of the entry `e` of the peer, whose list held a message as the data `d` of
  -- the node `q`.
  pub record IsAcked (e : NeighbourEntry) (q d : Ptr) (before after : Items)
      (r : Unit {0} × App M D) : Type 0 where
    pub list : Dllist
    pub removed : Removed s.heap q d before after ((d, list), r.1.heap)
    pub entry :
        env.nbr_lib.map_get (cur_of env r.1) (sock_key env peer)
        ≡ some (some (record e { msg_to_send = list }))
    pub others :
        (k : Key)
        → k ≢ sock_key env peer
        → env.nbr_lib.map_get (cur_of env r.1) k ≡ env.nbr_lib.map_get (cur_of env s) k
    -- Nothing else changes.
    pub potential_same : pot_of env r.1 ≡ pot_of env s
    pub map_same : r.1.g_msg_map ≡ s.g_msg_map
    pub list_same : r.1.g_msg_list ≡ s.g_msg_list
    pub stored_same : r.1.stored ≡ s.stored
    pub net_same : r.1.net ≡ s.net
    pub window_same : r.1.window ≡ s.window
    pub unlocked : r.1.locks ≡ no_locks
    pub traced : r.1.trace ≡ rev_onto (event_locks Event.ack) s.trace

  -- process_ack with no mutex held, of a current neighbour in whose list a message with the sender and
  -- the nonce of the acknowledgement waits, and whose last node has no next node: the first such message
  -- leaves the list, which has fewer than 2 ^ 31 elements, and the others stay as they are. The other
  -- neighbours, current and potential, the messages, the objects, the socket and the window are the
  -- same, and so is each node outside the list. The thread took and released the mutexes in the order of
  -- event_locks, and holds none.
  pub process_ack-removes :
      (b : AckBody) (e : NeighbourEntry) (xs : Items) (q d : Ptr) (ys : Items)
      → IsMapLib env.nbr_lib
      → env.nbr_lib.map_get (cur_of env s) (sock_key env peer) ≡ some (some e)
      → (is : IsDllist s.heap e.msg_to_send (xs ++ ((q, d) ∷ ys))) → is.after ≡ null
      → Misses (is_msg s.stored b.sender_id b.nonce) xs
      → is_msg s.stored b.sender_id b.nonce d ≡ ok true
      → length xs + suc (length ys) < 2 ^ 31
      → s.locks ≡ no_locks
      → Returns (IsAcked e q d (xs ++ ((q, d) ∷ ys)) (xs ++ ys)) (process_ack env b peer s)
  unfolding process_ack get_cur_neighbours lock unlock
  process_ack-removes b e xs q d ys laws here is ends miss hit small free =
      let (r, run, p) = Run.result (
        rm_nbr_msg-first s.stored b.sender_id b.nonce s.heap e.msg_to_send xs q d ys is ends miss
          hit small) in
      rw (free, here, run)
        (returns (record {
          list = r.0.1;
          removed = p.1;
          entry = laws.get-set _ _ _;
          others = λ k ne. laws.get-set_ne _ _ k _ ne;
          potential_same = refl;
          map_same = refl;
          list_same = refl;
          stored_same = refl;
          net_same = refl;
          window_same = refl;
          unlocked = refl;
          traced = refl;
        }))
