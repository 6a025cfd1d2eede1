-- ===== src/Reached/Handled.antt =====
-- The handlers of the server in a silent state.
use s6_projet_reseau.Common.{ℕ, ◌≡◌, true, false, Option, none, some, List, [], ◌∷◌}
use s6_projet_reseau.Common.Run
use s6_projet_reseau.Common.Run.{Run, ok, fault}
use s6_projet_reseau.Common.Holds.{
  holds, holds_fault, Holds-bind, Holds-either, Holds-option, from_option-Holds, any,
}
use s6_projet_reseau.Store.{null}
use s6_projet_reseau.Dllist.{dllist_empty}
use s6_projet_reseau.Wire.Types.{HelloBody, DataBody, AckBody, GoAwayBody, Sockaddr}
use s6_projet_reseau.Wire.Sbuff.{Sbuff, new_sbuff}
use s6_projet_reseau.Wire.Make.{new_tlv_hello, new_msg}
use s6_projet_reseau.Wire.Serial.{serial_msg}
use s6_projet_reseau.Neighbours.{NeighbourEntry, IsMapLib}
use s6_projet_reseau.Connect.{send_hello, send_ack}
use s6_projet_reseau.Shared.{Locks, no_locks, set_lock, Lock, Env, App, cur_of}
use s6_projet_reseau.MsgList.Drop.{rm_nbr_msg-idle}
use s6_projet_reseau.Process.{
  sock_key, greet, greet_all, add_new_neighbour, answer, find_peer, process_hello, process_data,
  process_ack, process_go_away,
}
use s6_projet_reseau.Reached.Silent.{IsIdleMap, map_set-IsIdleMap, IsSilent, StaysSilent}
use s6_projet_reseau.Reached.Entries.{
  unlock-StaysSilent, get_cur_neighbours-StaysSilent, get_pot_neighbours-StaysSilent,
}
use s6_projet_reseau.Reached.Queued.{add_msg-StaysSilent}
use s6_projet_reseau.Process.Hello.{read_address-fault}
use s6_projet_reseau.Reached.Actions.{
  from_run-StaysSilent, on_net-StaysSilent, udp_send-StaysSilent, on_heap-StaysSilent,
  put_cur-IsSilent, put_pot-IsSilent, add_entry-IsIdleMap, transfer-IsIdleMap,
}

module _ {M D : Type 0} (env : Env M D) (laws : IsMapLib env.nbr_lib) where
  greet-StaysSilent :
      (sb : Sbuff) (p : Sockaddr) (s : App M D)
      → StaysSilent env no_locks no_locks (λ _. Unit {0}) s (greet env sb p s)
  unfolding greet
  greet-StaysSilent sb p s silent =
      Holds-bind (udp_send-StaysSilent env sb p s silent) λ (sent, t) (kept, _).
        Holds-either sent _ _ t
          (Holds-bind (get_cur_neighbours-StaysSilent env t kept) λ (m, u) (kept, idle).
            Holds-bind (from_run-StaysSilent env u (add_entry-IsIdleMap env laws m p idle) kept)
              λ (r, v) (kept, idle).
                unlock-StaysSilent env Lock.cur_neighbours
                  (record v { g_cur_neighbours = some r.1 }) (put_cur-IsSilent env r.1 v kept idle))
          (Holds-bind (get_pot_neighbours-StaysSilent env t kept) λ (m, u) (kept, idle).
            Holds-bind (from_run-StaysSilent env u (add_entry-IsIdleMap env laws m p idle) kept)
              λ (r, v) (kept, idle).
                unlock-StaysSilent env Lock.pot_neighbours
                  (record v { g_pot_neighbours = some r.1 }) (put_pot-IsSilent env r.1 v kept idle))

  greet_all-StaysSilent :
      (sb : Sbuff) (ps : List Sockaddr) (s : App M D)
      → StaysSilent env no_locks no_locks (λ _. Unit {0}) s (greet_all env sb ps s)
  unfolding greet_all
  greet_all-StaysSilent sb [] s silent = holds (silent, tt)
  greet_all-StaysSilent sb (p ∷ ps) s silent =
      Holds-bind (greet-StaysSilent sb p s silent)
        λ r (kept, _). greet_all-StaysSilent sb ps r.1 kept

  pub add_new_neighbour-StaysSilent :
      (host port : List ℕ) (s : App M D)
      → StaysSilent env no_locks no_locks (λ _. Unit {0}) s (add_new_neighbour env host port s)
  unfolding add_new_neighbour
  add_new_neighbour-StaysSilent host port s silent =
      Holds-option (env.getaddrinfo host port) _ _ s (λ _. holds (silent, tt))
        λ ps _.
          Holds-bind
            (from_run-StaysSilent env s (any (new_msg (new_tlv_hello false env.client_id 0 ∷ []) 1))
              silent)
            λ (msg, t) (kept, _).
              Holds-bind
                (from_run-StaysSilent env t
                  (any (serial_msg env.machine msg (new_sbuff env.machine.junk))) kept)
                λ (sb, u) (kept, _). greet_all-StaysSilent sb ps u kept

  answer-StaysSilent :
      {l : Locks}
      → (b : HelloBody) (client : Sockaddr) (s : App M D)
      → StaysSilent env l l (λ _. Unit {0}) s (answer env b client s)
  unfolding answer
  answer-StaysSilent b client s silent = Holds-either b.is_long _ _ s (holds (silent, tt)) (
      on_net-StaysSilent env
        (send_hello env.machine env.accepts client true b.source_id env.client_id) s silent)

  find_peer-StaysSilent :
      {l : Locks}
      → (cur pot : M) (client : Sockaddr) (e_cur e_pot : Option (Option NeighbourEntry))
        (s : App M D)
      → IsIdleMap env.nbr_lib cur
      → IsIdleMap env.nbr_lib pot
      → StaysSilent env l l (λ _. Unit {0}) s (find_peer env cur pot client e_cur e_pot s)
  unfolding find_peer
  find_peer-StaysSilent cur pot client (some e_cur) e_pot s idle idle' silent = holds (silent, tt)
  find_peer-StaysSilent cur pot client none none s idle idle' silent =
      rw (read_address-fault env client cur pot) holds_fault
  find_peer-StaysSilent cur pot client none (some e_pot) s idle idle' silent =
      Holds-bind
        (from_run-StaysSilent env s
          (transfer-IsIdleMap env laws pot cur (sock_key env client) idle' idle) silent)
        λ (r, t) (kept, (left, there)). holds (
          put_cur-IsSilent env r.2 (record t { g_pot_neighbours = some r.1 })
              (put_pot-IsSilent env r.1 t kept left) there,
          tt,
        )

  pub process_hello-StaysSilent :
      (b : HelloBody) (client : Sockaddr) (s : App M D)
      → StaysSilent env no_locks no_locks (λ _. Unit {0}) s (process_hello env b client s)
  unfolding process_hello
  process_hello-StaysSilent b client s silent =
      Holds-bind (answer-StaysSilent b client s silent) λ (_, t) (kept, _).
        Holds-bind (get_cur_neighbours-StaysSilent env t kept) λ (cur, u) (kept, idle).
          Holds-bind (get_pot_neighbours-StaysSilent env u kept) λ (pot, v) (kept, idle').
            Holds-bind (find_peer-StaysSilent cur pot client _ _ v idle idle' kept)
              λ (_, w) (kept, _).
                Holds-bind (unlock-StaysSilent env Lock.cur_neighbours w kept)
                  λ (_, x) (kept, _). unlock-StaysSilent env Lock.pot_neighbours x kept

  pub process_data-StaysSilent :
      (b : DataBody) (client : Sockaddr) (s : App M D)
      → StaysSilent env no_locks no_locks (λ _. Unit {0}) s (process_data env b client s)
  unfolding process_data
  process_data-StaysSilent b client s silent =
      Holds-bind
        (on_net-StaysSilent env (send_ack env.machine env.accepts client b.sender_id b.nonce) s
          silent)
        λ (_, t) (kept, _).
          Holds-bind (add_msg-StaysSilent env b t kept) λ r (kept, _). holds (kept, tt)

  pub process_ack-StaysSilent :
      (b : AckBody) (pair : Sockaddr) (s : App M D)
      → StaysSilent env no_locks no_locks (λ _. Unit {0}) s (process_ack env b pair s)
  unfolding process_ack
  process_ack-StaysSilent b pair s silent =
      Holds-bind (get_cur_neighbours-StaysSilent env s silent) λ (cur, t) (kept, idle).
        Holds-bind
          (from_run-StaysSilent env t
            (from_option-Holds (env.nbr_lib.map_get cur (sock_key env pair))) kept)
          λ (o, u) (kept, there).
            Holds-bind {P = λ r. IsSilent env (set_lock Lock.cur_neighbours true no_locks) r.1}
              (Holds-option o _ _ u (λ _. holds kept)
                λ e same.
                  let first : e.msg_to_send.first ≡ null =
                    idle (sock_key env pair) e (rw same at there) in
                  rw (rm_nbr_msg-idle u.stored b.sender_id b.nonce e.msg_to_send u.heap first) (
                    holds (
                      put_cur-IsSilent env _ u kept (
                        map_set-IsIdleMap env.nbr_lib laws (cur_of env u) (sock_key env pair) e
                          kept.cur_idle first))))
              λ (_, v) kept. unlock-StaysSilent env Lock.cur_neighbours v kept

  pub process_go_away-StaysSilent :
      (b : GoAwayBody) (pair : Sockaddr) (s : App M D)
      → StaysSilent env no_locks no_locks (λ _. Unit {0}) s (process_go_away env b pair s)
  unfolding process_go_away
  process_go_away-StaysSilent b pair s silent =
      Holds-bind (get_cur_neighbours-StaysSilent env s silent) λ (cur, t) (kept, idle).
        Holds-bind (get_pot_neighbours-StaysSilent env t kept) λ (pot, u) (kept, idle').
          Holds-bind
            (from_run-StaysSilent env u
              (any (Run.from_option (env.nbr_lib.map_get cur (sock_key env pair)))) kept)
            λ (o, v) (kept, _).
              Holds-bind (from_run-StaysSilent env v (any (Run.from_option o)) kept)
                λ (e, w) (kept, _).
                  Holds-bind (on_heap-StaysSilent env (dllist_empty e.msg_to_send false) w kept)
                    λ (_, x) (kept, _).
                      Holds-bind
                        (from_run-StaysSilent env x
                          (transfer-IsIdleMap env laws cur pot (sock_key env pair) idle idle') kept)
                        λ (r, y) (kept, (left, there)).
                          Holds-bind
                            (unlock-StaysSilent env Lock.cur_neighbours
                              (record y {
                                g_cur_neighbours = some r.1;
                                g_pot_neighbours = some r.2;
                              })
                              (put_pot-IsSilent env r.2 (record y { g_cur_neighbours = some r.1 })
                                (put_cur-IsSilent env r.1 y kept left) there))
                            λ (_, z) (kept, _). unlock-StaysSilent env Lock.pot_neighbours z kept
