-- ===== src/Worker/Retire.antt =====
-- A pass of the worker over the neighbours.
use s6_projet_reseau.Common.{ℕ, ◌≡◌, refl, true, Option, none, some, List, [], ◌∷◌}
use s6_projet_reseau.Common.Run.{fault, ok}
use s6_projet_reseau.Store.{null}
use s6_projet_reseau.Wire.Types.{Sockaddr}
use s6_projet_reseau.Connect.{Net, send_go_away}
use s6_projet_reseau.Connect.Sent.{send_go_away-text}
use s6_projet_reseau.Neighbours.{NeighbourEntry, Key, IsMapLib, entry_key}
use s6_projet_reseau.Neighbours.Transfer.{map_transfer_neighbour-ok, map_transfer_neighbour-fault}
use s6_projet_reseau.Shared.{
  Lock, acquire, no_locks, Env, App, msg_list_of, msg_map_of, lock, unlock, cur_of, pot_of,
  get_cur_neighbours, get_pot_neighbours, get_msg_list, get_msg_map,
}
use s6_projet_reseau.Threads.{worker_locks, rev_onto}
use s6_projet_reseau.Worker.{
  Status, worker_iter_msg, retire, worker_iter_nbr, worker_pass, next_key,
}
use s6_projet_reseau.Process.{handlers}

module _ {M D : Type 0} (env : Env M D) where
  abbrev pub stored_key : NeighbourEntry → Key
  stored_key e = entry_key env.nbr_lib env.machine.order env.decimal e

  pub worker_iter_msg-idle :
      (fuel : ℕ) (e : NeighbourEntry) (s : App M D)
      → e.msg_to_send.first ≡ null
      → worker_iter_msg env fuel e s ≡ ok (Status.idle, s)
  unfolding worker_iter_msg
  worker_iter_msg-idle fuel e s empty = rw empty refl

  module _ (laws : IsMapLib env.nbr_lib) (text : List ℕ)
      (send : (pair : Sockaddr) (net : Net)
        → net.is_open ≡ true
        → ((t : List ℕ) → env.accepts pair t ≡ true)
        → send_go_away env.machine env.accepts pair net
          ≡ ok (record net { sent = (pair, text) ∷ net.sent }))
      (accepted : (p : Sockaddr) (t : List ℕ) → env.accepts p t ≡ true) where
    -- The round for a neighbour that goes to the potential ones ends, and map_next then reads the node
    -- that map_remove freed. Where the other map has an entry for it, the transfer faults itself.
    worker_iter_nbr-fault :
        (fuel : ℕ) (key : Key) (keys : List Key) (e : NeighbourEntry) (s : App M D)
        → s.net.is_open ≡ true
        → env.nbr_lib.map_get (cur_of env s) key ≡ some (some e)
        → e.msg_to_send.first ≡ null
        → worker_iter_nbr env fuel (key ∷ keys) s ≡ fault
    unfolding worker_iter_nbr retire next_key
    worker_iter_nbr-fault fuel key keys e s is_open here empty =
        by_room (env.nbr_lib.map_get (pot_of env s) (stored_key e)) refl
      where
        by_room :
            (o : Option (Option NeighbourEntry))
            → env.nbr_lib.map_get (pot_of env s) (stored_key e) ≡ o
            → worker_iter_nbr env fuel (key ∷ keys) s ≡ fault
        by_room none room =
            rw
              (
                here,
                worker_iter_nbr,
                worker_iter_msg-idle fuel e s empty,
                send e.addr s.net is_open (accepted e.addr),
                map_transfer_neighbour-ok env.nbr_lib laws env.machine.order env.decimal
                    (cur_of env s) (pot_of env s) key e here room,
                next_key,
                laws.get-remove (cur_of env s) key,
              )
              refl
        by_room (some old) taken =
            rw
              (
                here,
                worker_iter_nbr,
                worker_iter_msg-idle fuel e s empty,
                send e.addr s.net is_open (accepted e.addr),
                map_transfer_neighbour-fault env.nbr_lib laws env.machine.order env.decimal
                    (cur_of env s) (pot_of env s) key e old here taken,
              )
              refl

  -- One pass of worker_loop with no mutex held and no current neighbour: it ends and changes nothing.
  -- The thread took and released the mutexes in the order of worker_locks, and holds none.
  worker_pass-alone :
      (fuel : ℕ) (s : App M D)
      → env.nbr_lib.map_keys (cur_of env s) ≡ []
      → s.locks ≡ no_locks
      → worker_pass env fuel s
        ≡ ok (
          tt,
          record s {
            g_cur_neighbours = some (cur_of env s);
            g_pot_neighbours = some (pot_of env s);
            g_msg_list = some (msg_list_of env s);
            g_msg_map = some (msg_map_of env s);
            trace = rev_onto worker_locks s.trace;
          },
        )
  unfolding worker_pass get_cur_neighbours get_pot_neighbours get_msg_list get_msg_map lock unlock
      worker_iter_nbr
  worker_pass-alone fuel s keys free = rw (free, keys) refl

  -- One pass of worker_loop with no mutex held, over an open socket that accepts all, where the iterator
  -- begins with a current neighbour for which no message waits, and the hash map is as documented: the
  -- pass faults. The neighbour is moved to the potential ones, which frees the node of the map that the
  -- iterator then reads.
  pub worker_pass-fault :
      (fuel : ℕ) (key : Key) (keys : List Key) (e : NeighbourEntry) (s : App M D)
      → IsMapLib env.nbr_lib
      → ((p : Sockaddr) (t : List ℕ) → env.accepts p t ≡ true)
      → s.net.is_open ≡ true
      → env.nbr_lib.map_keys (cur_of env s) ≡ key ∷ keys
      → env.nbr_lib.map_get (cur_of env s) key ≡ some (some e)
      → e.msg_to_send.first ≡ null
      → s.locks ≡ no_locks
      → worker_pass env fuel s ≡ fault
  unfolding worker_pass get_cur_neighbours get_pot_neighbours get_msg_list get_msg_map lock
  worker_pass-fault fuel key keys e s laws accepted is_open first here empty free =
      let (text, send, acts) = send_go_away-text (handlers env e.addr) env.machine env.accepts in
      rw
        (
          free,
          first,
          worker_iter_nbr-fault laws text send accepted fuel key keys e
              (record s {
                g_cur_neighbours = some (cur_of env s);
                g_pot_neighbours = some (pot_of env s);
                g_msg_list = some (msg_list_of env s);
                g_msg_map = some (msg_map_of env s);
                locks = record {
                  cur_held = true;
                  pot_held = true;
                  map_held = true;
                  list_held = true;
                };
                trace =
                    acquire Lock.msg_map
                    ∷ acquire Lock.msg_list
                    ∷ acquire Lock.pot_neighbours
                    ∷ acquire Lock.cur_neighbours
                    ∷ s.trace;
              })
              is_open here empty,
        )
        refl
