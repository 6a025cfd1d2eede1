-- ===== src/Process/Hello.antt =====
-- process_hello: the answer, and what becomes of the peer.
use s6_projet_reseau.Common.{
  ℕ, ◌∷◌, ◌^◌, ◌<◌, ◌≡◌, ◌≢◌, refl, Bool, true, false, Option, none, some, List, if◌then◌else◌,
}
use s6_projet_reseau.Common.Run
use s6_projet_reseau.Common.Run.{Run, ok, fault, Returns, returns}
use s6_projet_reseau.Wire.Types.{HelloBody, Sockaddr}
use s6_projet_reseau.Connect.{Net, Handlers, send_hello}
use s6_projet_reseau.Connect.Sent.{Delivered, send_hello-process_hello}
use s6_projet_reseau.Neighbours.{NeighbourEntry, IsMapLib, entry_key}
use s6_projet_reseau.Neighbours.Transfer.{Moved, map_transfer_neighbour-moves}
use s6_projet_reseau.Shared.{
  Lock, acquire, no_locks, Act, Env, App, pure, ◌>>=◌, ◌>>◌, from_run, put_cur, put_pot, on_net,
  lock, unlock, cur_of, pot_of, get_cur_neighbours, get_pot_neighbours,
}
use s6_projet_reseau.Threads.{Event, event_locks, rev_onto}
use s6_projet_reseau.Process.{
  sock_key, transfer, answer, find_peer, process_hello, read_address, pointer_bytes,
}
use s6_projet_reseau.Wire.Serial.Strings.{length-mem_bytes}

module _ {M D : Type 0} (env : Env M D) (client : Sockaddr) (cur pot : M) where
  find_peer-known :
      (e_cur e_pot : Option (Option NeighbourEntry))
      → e_cur ≢ none
      → find_peer env cur pot client e_cur e_pot ≡ pure tt
  unfolding find_peer
  find_peer-known none e_pot ne = absurd (ne refl)
  find_peer-known (some e) e_pot ne = refl

  -- The pointer has eight bytes, and an address of IPv6 sixteen.
  pub read_address-fault : read_address (pointer_bytes env client) ≡ fault
  unfolding read_address
  read_address-fault = rw (length-mem_bytes env.machine.order 8 (env.address_of client)) refl

  pub find_peer-unknown : find_peer env cur pot client none none ≡ λ s. fault
  unfolding find_peer
  find_peer-unknown = rw read_address-fault refl

  abbrev move_peer : Act (App M D) (Unit {0})
  move_peer = do r ← from_run (transfer env pot cur (sock_key env client)); put_pot r.1; put_cur r.2

  find_peer-potential :
      (e_pot : Option NeighbourEntry) → find_peer env cur pot client none (some e_pot) ≡ move_peer
  unfolding find_peer
  find_peer-potential e_pot = refl

  -- The run of process_hello from what the answer and the search do.
  found_run :
      (b : HelloBody) (s : App M D) (net : Net) (act : Act (App M D) (Unit {0}))
      → answer env b client s ≡ ok (tt, record s { net = net })
      → cur_of env s ≡ cur
      → pot_of env s ≡ pot
      → find_peer env cur pot client
          (env.nbr_lib.map_get cur (sock_key env client))
          (env.nbr_lib.map_get pot (sock_key env client))
        ≡ act
      → s.locks ≡ no_locks
      → process_hello env b client s
        ≡ (do act; unlock Lock.cur_neighbours; unlock Lock.pot_neighbours)
            (record s {
              net = net;
              g_cur_neighbours = some cur;
              g_pot_neighbours = some pot;
              locks = record no_locks { cur_held = true; pot_held = true };
              trace = acquire Lock.pot_neighbours ∷ acquire Lock.cur_neighbours ∷ s.trace;
            })
  unfolding process_hello get_cur_neighbours get_pot_neighbours lock unlock
  found_run b s net act run is_cur is_pot found free = rw (run, free, is_cur, is_pot, found) refl

module _ {M D : Type 0} (env : Env M D) (b : HelloBody) (client : Sockaddr) (s : App M D)
    {S : Type 0} (handlers : Handlers S) where
  -- A long hello is not answered. The answer to a short one is a datagram to the peer: whoever reads
  -- it takes a long hello with the peer's identifier as the source and the program's as the
  -- destination.
  abbrev pub Answered : Bool → Net → Type 0
  Answered true net = net ≡ s.net
  Answered false net =
      Delivered handlers client s.net
        (handlers.process_hello
          (record { is_long = true; source_id = b.source_id; dest_id = env.client_id }))
        net

  module _ (is_open : s.net.is_open ≡ true)
      (accepted : (text : List ℕ) → env.accepts client text ≡ true) (source : b.source_id < 2 ^ 64)
      (own : env.client_id < 2 ^ 64) where
    answer-Answered :
        (net : Net) × (answer env b client s ≡ ok (tt, record s { net = net }))
        × Answered b.is_long net
    unfolding answer
    answer-Answered = by_kind b.is_long
      where
        send :
            (net : Net) × (send_hello env.machine env.accepts client true b.source_id env.client_id
                s.net
              ≡ ok net)
            × Answered false net
        send = Run.result (
            send_hello-process_hello handlers env.machine env.accepts client s.net is_open accepted
              true b.source_id env.client_id source own)

        by_kind :
            (long : Bool)
            → (net : Net) × ((if long
                    then pure tt
                    else on_net
                        (send_hello env.machine env.accepts client true b.source_id env.client_id))
                  s
                ≡ ok (tt, record s { net = net }))
              × Answered long net
        by_kind true = (s.net, refl, refl)
        by_kind false = (send.0, rw send.1 refl, send.2)

    -- process_hello with no mutex held and an open socket that accepts what is sent to the peer: a peer
    -- that is a current neighbour is answered, and nothing else changes but that the two maps exist.
    pub process_hello-known :
        env.nbr_lib.map_get (cur_of env s) (sock_key env client) ≢ none
        → s.locks ≡ no_locks
        → Returns
            (λ r.
              Answered b.is_long r.1.net
              × (r.1 ≡ record s {
                g_cur_neighbours = some (cur_of env s);
                g_pot_neighbours = some (pot_of env s);
                net = r.1.net;
                locks = no_locks;
                trace = rev_onto (event_locks Event.hello) s.trace;
              }))
            (process_hello env b client s)
    unfolding unlock
    process_hello-known known free =
        let (net, e, answered) = answer-Answered in
        rw
          (found_run env client (cur_of env s) (pot_of env s) b s net (pure tt) e refl refl
            (find_peer-known env client (cur_of env s) (pot_of env s) _ _ known) free)
          (returns (answered, refl))

    -- process_hello with no mutex held and an open socket that accepts what is sent to the peer: a peer
    -- that is only a potential neighbour is answered and becomes a current one, where no current one has
    -- the key that its entry is stored under. No other neighbour changes. The thread took and released
    -- the mutexes in the order of event_locks, and holds none.
    pub process_hello-moves :
        IsMapLib env.nbr_lib
        → (e : NeighbourEntry) → env.nbr_lib.map_get (cur_of env s) (sock_key env client) ≡ none
        → env.nbr_lib.map_get (pot_of env s) (sock_key env client) ≡ some (some e)
        → env.nbr_lib.map_get (cur_of env s) (entry_key env.nbr_lib env.machine.order env.decimal e)
          ≡ none
        → s.locks ≡ no_locks
        → Returns
            (λ r.
              Answered b.is_long r.1.net
              × Moved env.nbr_lib
                  (pot_of env s)
                  (cur_of env s)
                  (sock_key env client)
                  (entry_key env.nbr_lib env.machine.order env.decimal e)
                  e
                  (1, pot_of env r.1, cur_of env r.1)
              × (r.1.locks ≡ no_locks)
              × (r.1.trace ≡ rev_onto (event_locks Event.hello) s.trace))
            (process_hello env b client s)
    unfolding unlock
    process_hello-moves laws e absent here room free =
        let (net, run, answered) = answer-Answered in
        let (r, moves, moved) = Run.result (
          map_transfer_neighbour-moves env.nbr_lib laws env.machine.order env.decimal (pot_of env s)
            (cur_of env s) (sock_key env client) e here room) in
        rw
          (
            found_run env client (cur_of env s) (pot_of env s) b s net
                (move_peer env client (cur_of env s) (pot_of env s)) run refl refl
                (rw (absent, here)
                  (find_peer-potential env client (cur_of env s) (pot_of env s) (some e)))
                free,
            moves,
          )
          (returns (
            answered,
            record {
              done = refl;
              gone = moved.gone;
              there = moved.there;
              source_same = moved.source_same;
              target_same = moved.target_same;
            },
            refl,
            refl,
          ))

    -- process_hello with no mutex held and an open socket that accepts what is sent to the peer: a peer
    -- in neither map makes it fault: inet_ntop is given the pointer to the address of the peer for the
    -- address itself, and reads 16 bytes of the eight.
    pub process_hello-fault :
        env.nbr_lib.map_get (cur_of env s) (sock_key env client) ≡ none
        → env.nbr_lib.map_get (pot_of env s) (sock_key env client) ≡ none
        → s.locks ≡ no_locks
        → process_hello env b client s ≡ fault
    process_hello-fault no_cur no_pot free =
        let (net, run, answered) = answer-Answered in
        found_run env client (cur_of env s) (pot_of env s) b s net (λ s. fault) run refl refl
          (rw (no_cur, no_pot) (find_peer-unknown env client (cur_of env s) (pot_of env s))) free
