-- ===== src/Process.antt =====
-- The handlers of src/connect.c, process_hello to process_warning, with add_new_neighbour of
-- src/neighbour_map.c, on the state that the threads share. Freeing the body of a TLV and a key is
-- left out, as neither is used again.
pub mod Hello
pub mod Peers
pub mod Greet
pub mod Received
use s6_projet_reseau.Common.{
  leb, take, length, ℕ, Bool, true, false, not, Option, none, some, List, [], ◌∷◌, ◌==◌,
  if◌then◌else◌,
}
use s6_projet_reseau.Common.Run
use s6_projet_reseau.Common.Run.{Run, ok, fault}
use s6_projet_reseau.Dllist.{dllist_empty}
use s6_projet_reseau.Wire.Types.{
  HelloBody, NeighbourBody, DataBody, AckBody, GoAwayBody, WarningBody, Sockaddr,
}
use s6_projet_reseau.Wire.Host.{mem_bytes}
use s6_projet_reseau.Wire.Sbuff.{Sbuff, new_sbuff}
use s6_projet_reseau.Wire.Make.{new_tlv_hello, new_msg}
use s6_projet_reseau.Wire.Serial.{serial_msg}
use s6_projet_reseau.Wire.Dserial.{dserial_msg}
use s6_projet_reseau.Connect.{Net, Handlers, udp_send, send_hello, send_ack, process_datagram}
use s6_projet_reseau.Neighbours.{
  Key, NeighbourEntry, new_neighbour_entry, new_neighbour_key_sock, map_add_neighbour_entry,
  map_transfer_neighbour,
}
use s6_projet_reseau.Shared.{
  Lock, Env, App, Act, pure, ◌>>=◌, ◌>>◌, from_run, on_heap, on_net, lock, unlock, put_cur, put_pot,
  get_cur_neighbours, get_pot_neighbours, cur_of,
}
use s6_projet_reseau.MsgList.{rm_nbr_msg, put_entry, add_msg}

-- inet_ntop of AF_INET6 reads the sixteen bytes of a struct in6_addr, from the start of an object.
unfoldable pub read_address : List ℕ → Run (List ℕ)
read_address object = if leb 16 (length object) then ok (take 16 object) else fault

module _ {M D : Type 0} (env : Env M D) where
  -- Keys that are made from the address of a peer, and those that entries are stored under.
  abbrev pub sock_key : Sockaddr → Key
  sock_key s = new_neighbour_key_sock env.decimal s

  abbrev pub add_entry : M → NeighbourEntry → Run (ℕ × M)
  add_entry = map_add_neighbour_entry env.nbr_lib env.machine.order env.decimal

  abbrev pub transfer : M → M → Key → Run (ℕ × M × M)
  transfer = map_transfer_neighbour env.nbr_lib env.machine.order env.decimal

  -- The body of the loop of add_new_neighbour: where the hello could be sent, the neighbour is a
  -- current one, and else a potential one.
  unfoldable pub greet : Sbuff → Sockaddr → Act (App M D) (Unit {0})
  greet sb p = do
    sent ← (λ s. Run.◌>>=◌ (udp_send env.accepts p sb s.net) λ r. ok (r.0, record s { net = r.1 }))
    if sent
        then (do
          m ← get_cur_neighbours env
          r ← from_run (add_entry m (new_neighbour_entry p))
          put_cur r.1
          unlock Lock.cur_neighbours)
        else (do
          m ← get_pot_neighbours env
          r ← from_run (add_entry m (new_neighbour_entry p))
          put_pot r.1
          unlock Lock.pot_neighbours)

  unfoldable pub greet_all : Sbuff → List Sockaddr → Act (App M D) (Unit {0})
  greet_all sb [] = pure tt
  greet_all sb (p ∷ ps) = do greet sb p; greet_all sb ps

  -- getaddrinfo may give several addresses, or an error.
  unfoldable pub add_new_neighbour : List ℕ → List ℕ → Act (App M D) (Unit {0})
  add_new_neighbour host port = elim (env.getaddrinfo host port) [
    | none ↦ pure tt
    | some ps ↦ (do
      msg ← from_run (new_msg (new_tlv_hello false env.client_id 0 ∷ []) 1)
      sb ← from_run (serial_msg env.machine msg (new_sbuff env.machine.junk))
      greet_all sb ps)
  ]

  unfoldable pub answer : HelloBody → Sockaddr → Act (App M D) (Unit {0})
  answer b client =
      if b.is_long
      then pure tt
      else on_net (send_hello env.machine env.accepts client true b.source_id env.client_id)

  -- The bytes of the pointer `client`, which is an object by itself.
  abbrev pub pointer_bytes : Sockaddr → List ℕ
  pointer_bytes client = mem_bytes env.machine.order 8 (env.address_of client)

  -- The test of the two entries of the peer. If it is in neither map, inet_ntop is given `&client`, and
  -- what it prints is added as a neighbour.
  unfoldable pub find_peer :
      M
      → M
      → Sockaddr
      → Option (Option NeighbourEntry)
      → Option (Option NeighbourEntry)
      → Act (App M D) (Unit {0})
  find_peer cur pot client (some e_cur) e_pot = pure tt
  find_peer cur pot client none none = do
    ip ← from_run (read_address (pointer_bytes client))
    add_new_neighbour (env.inet_ntop ip) (env.decimal client.sin6_port)
  find_peer cur pot client none (some e_pot) = do
    r ← from_run (transfer pot cur (sock_key client))
    put_pot r.1
    put_cur r.2

  unfoldable pub process_hello : HelloBody → Sockaddr → Act (App M D) (Unit {0})
  process_hello b client = do
    answer b client
    cur ← get_cur_neighbours env
    pot ← get_pot_neighbours env
    find_peer cur pot client (env.nbr_lib.map_get cur (sock_key client))
        (env.nbr_lib.map_get pot (sock_key client))
    unlock Lock.cur_neighbours
    unlock Lock.pot_neighbours

  unfoldable pub process_neighbour : NeighbourBody → Act (App M D) (Unit {0})
  process_neighbour b = add_new_neighbour (env.inet_ntop b.ip) (env.decimal b.port)

  -- The data is also printed on the terminal at the end.
  unfoldable pub process_data : DataBody → Sockaddr → Act (App M D) (Unit {0})
  process_data b client = do
    on_net (send_ack env.machine env.accepts client b.sender_id b.nonce)
    added ← add_msg env b
    pure tt

  -- It prints the message.
  unfoldable pub process_warning : WarningBody → Act (App M D) (Unit {0})
  process_warning b = pure tt

  unfoldable pub process_ack : AckBody → Sockaddr → Act (App M D) (Unit {0})
  process_ack b pair = do
    cur ← get_cur_neighbours env
    e ← from_run (Run.from_option (env.nbr_lib.map_get cur (sock_key pair)))
    elim e [
      | none ↦ pure tt
      | some e ↦ (do
        r ← (λ s. on_heap (rm_nbr_msg s.stored b.sender_id b.nonce e.msg_to_send) s)
        put_entry env (sock_key pair) (record e { msg_to_send = r.1 }))
    ]
    unlock Lock.cur_neighbours

  unfoldable pub process_go_away : GoAwayBody → Sockaddr → Act (App M D) (Unit {0})
  process_go_away b pair = do
    cur ← get_cur_neighbours env
    pot ← get_pot_neighbours env
    e ← from_run (Run.from_option (env.nbr_lib.map_get cur (sock_key pair)))
    e ← from_run (Run.from_option e)
    on_heap (dllist_empty e.msg_to_send false)
    r ← from_run (transfer cur pot (sock_key pair))
    put_cur r.1
    put_pot r.2
    unlock Lock.cur_neighbours
    unlock Lock.pot_neighbours

  -- The handlers of a datagram from `client`.
  unfoldable pub handlers : Sockaddr → Handlers (App M D)
  handlers client = record {
    process_hello = λ b s. Run.◌>>=◌ (process_hello b client s) (λ r. ok r.1);
    process_neighbour = λ b s. Run.◌>>=◌ (process_neighbour b s) (λ r. ok r.1);
    process_data = λ b s. Run.◌>>=◌ (process_data b client s) (λ r. ok r.1);
    process_ack = λ b s. Run.◌>>=◌ (process_ack b client s) (λ r. ok r.1);
    process_go_away = λ b s. Run.◌>>=◌ (process_go_away b client s) (λ r. ok r.1);
    process_warning = λ b s. Run.◌>>=◌ (process_warning b s) (λ r. ok r.1);
  }
