-- ===== src/Reached/Always.antt =====
-- What is true of every state that the program comes to.
use s6_projet_reseau.Common.{◌≡◌}
use s6_projet_reseau.Common.Run
use s6_projet_reseau.Common.Run.{Run, ok, blocked}
use s6_projet_reseau.Common.Holds.{Holds, holds, Holds-bind, Holds-ok}
use s6_projet_reseau.Store.{Heap}
use s6_projet_reseau.Wire.Types.{DataBody, Sockaddr}
use s6_projet_reseau.Neighbours.{IsMapLib}
use s6_projet_reseau.Connect.{Net}
use s6_projet_reseau.Connect.Kept.{AreKept, process_datagram-Holds}
use s6_projet_reseau.Shared.{no_locks, Env, App}
use s6_projet_reseau.Process.{handlers, process_neighbour, process_warning}
use s6_projet_reseau.MsgList.{add_msg}
use s6_projet_reseau.MsgList.Known.{add_msg-first}
use s6_projet_reseau.Server.{Arrival, server_round}
use s6_projet_reseau.Reached.{Step, round, pass, message, trim, meet, Reaches, here, then, at_start}
use s6_projet_reseau.Reached.Silent.{IsSilent, StaysSilent, at_start-IsSilent}
use s6_projet_reseau.Reached.Queued.{add_msg-StaysSilent, rm_n_msg-StaysSilent}
use s6_projet_reseau.Reached.Handled.{
  add_new_neighbour-StaysSilent, process_hello-StaysSilent, process_data-StaysSilent,
  process_ack-StaysSilent, process_go_away-StaysSilent,
}
use s6_projet_reseau.Reached.Worked.{worker_pass-StaysSilent}

module _ {M D : Type 0} (env : Env M D) where
  -- A handler as the dispatch calls it.
  state_of :
      (s : App M D) (r : Run (Unit {0} × App M D))
      → IsSilent env no_locks s
      → StaysSilent env no_locks no_locks (λ _. Unit {0}) s r
      → Holds (IsSilent env no_locks) (Run.◌>>=◌ r (λ t. ok t.1))
  state_of s r silent stays = Holds-bind (stays silent) λ t (kept, _). holds kept

  module _ (laws : IsMapLib env.nbr_lib) where
    handlers-AreKept : (client : Sockaddr) → AreKept (IsSilent env no_locks) (handlers env client)
    unfolding handlers process_neighbour process_warning
    handlers-AreKept client = record {
      hello = λ b s silent. state_of s _ silent (process_hello-StaysSilent env laws b client s);
      neighbour = λ b s silent. state_of s _ silent (add_new_neighbour-StaysSilent env laws _ _ s);
      content = λ b s silent. state_of s _ silent (process_data-StaysSilent env laws b client s);
      ack = λ b s silent. state_of s _ silent (process_ack-StaysSilent env laws b client s);
      go_away = λ b s silent. state_of s _ silent (process_go_away-StaysSilent env laws b client s);
      warning = λ b s silent. holds silent;
    }

    server_round-Holds :
        (a : Arrival) (s : App M D)
        → IsSilent env no_locks s
        → Holds (IsSilent env no_locks) (server_round (handlers env) env.machine a s)
    unfolding server_round
    server_round-Holds Arrival.select_error s silent = holds silent
    server_round-Holds Arrival.timeout s silent = holds silent
    server_round-Holds Arrival.recv_error s silent = holds silent
    server_round-Holds (Arrival.datagram_from client text req) s silent =
        process_datagram-Holds (IsSilent env no_locks) (handlers env client)
          (handlers-AreKept client) _ _ _ _ s silent

    Step-IsSilent :
        {s t : App M D} → Step env s t → IsSilent env no_locks s → IsSilent env no_locks t
    Step-IsSilent {s} (round a e) silent = Holds-ok (server_round-Holds a s silent) e
    Step-IsSilent {s} (pass fuel e) silent =
        (Holds-ok (worker_pass-StaysSilent env laws fuel s silent) e).0
    Step-IsSilent {s} (message b added e) silent =
        (Holds-ok (add_msg-StaysSilent env b s silent) e).0
    Step-IsSilent {s} (trim n e) silent = (Holds-ok (rm_n_msg-StaysSilent env n s silent) e).0
    Step-IsSilent {s} (meet host port e) silent =
        (Holds-ok (add_new_neighbour-StaysSilent env laws host port s silent) e).0

    -- In each state that rounds of the server, passes of the worker and calls of add_msg, rm_n_msg and
    -- add_new_neighbour lead to from the start, one after the other and each to its end, where the hash
    -- maps are as documented: the map and the list of messages are empty, no message waits for a
    -- current or a potential neighbour, no message was shown, and no mutex is held.
    pub Reaches-IsSilent :
        (heap : Heap) (net : Net) (s : App M D)
        → IsMapLib env.data_lib
        → Reaches env (at_start heap net) s
        → IsSilent env no_locks s
    Reaches-IsSilent heap net s data_laws here = at_start-IsSilent env heap net laws data_laws
    Reaches-IsSilent heap net s data_laws (then {t = t} before step) =
        Step-IsSilent step (Reaches-IsSilent heap net t data_laws before)

    -- In each state that rounds of the server, passes of the worker and calls of add_msg, rm_n_msg and
    -- add_new_neighbour lead to from the start, where the hash maps are as documented, add_msg of any
    -- message waits for ever: is_in_msg_list returns with the mutex of the list held, and add_msg takes
    -- it again.
    pub add_msg-blocked :
        (heap : Heap) (net : Net) (b : DataBody) (s : App M D)
        → IsMapLib env.data_lib
        → Reaches env (at_start heap net) s
        → add_msg env b s ≡ blocked
    add_msg-blocked heap net b s data_laws reached =
        let silent = Reaches-IsSilent heap net s data_laws reached in
        add_msg-first env b s silent.list_empty silent.locks_are
