-- ===== src/Tests/Running.antt =====
-- The theorems on messages and neighbours at a concrete state.
use s6_projet_reseau.Common.{
  ℕ, ◌≡◌, ◌≢◌, refl, arith, Bool, true, false, none, some, List, [], ◌∷◌, if◌then◌else◌,
}
use s6_projet_reseau.Common.Run.{ok, fault, stuck, Returns}
use s6_projet_reseau.Store.{NodeType}
use s6_projet_reseau.Dllist.Seg.{node}
use s6_projet_reseau.Shared.{no_locks, cur_of, pot_of}
use s6_projet_reseau.MsgList.{same_text}
use s6_projet_reseau.MsgList.Queue.{HasEntry}
use s6_projet_reseau.MsgList.{is_in_msg_list, rm_n_msg}
use s6_projet_reseau.MsgList.DropAll.{IsTrimmed, rm_n_msg-oldest}
use s6_projet_reseau.MsgList.Drop.{IsIdle}
use s6_projet_reseau.MsgList.Known.{is_in_msg_list-is_among, with_list}
use s6_projet_reseau.Neighbours.{
  Key, NeighbourEntry, new_data_key, new_neighbour_key, new_neighbour_key_sock,
}
use s6_projet_reseau.Process.{process_hello, process_go_away, add_new_neighbour}
use s6_projet_reseau.Process.Hello.{Answered, process_hello-moves, process_hello-fault}
use s6_projet_reseau.Process.Peers.{process_go_away-moves}
use s6_projet_reseau.Process.Greet.{AreGreeted, add_new_neighbour-greets}
use s6_projet_reseau.Threads.{Event, event_locks, rev_onto}
use s6_projet_reseau.Worker.{Status, worker_iter_msg, worker_pass}
use s6_projet_reseau.Worker.Messages.{worker_iter_msg-ne-ok, worker_iter_msg-stuck}
use s6_projet_reseau.Worker.Retire.{worker_pass-fault}
use s6_projet_reseau.Connect.Dispatch.{Acts}
use s6_projet_reseau.Neighbours.Transfer.{Moved}
use s6_projet_reseau.Tests.Data.{text_body, address, suc_ne, log}
use s6_projet_reseau.Tests.State.{
  env, waiting, calm, busy, known, address_key, host_key, short_hello, bye, state, one_node,
}
use s6_projet_reseau.Tests.Table.{table, table-IsMapLib}

is_in_msg_list-is_among_example :
    is_in_msg_list env (text_body 2) (state none none (some known))
    ≡ ok (false, with_list env (state none none (some known)))
unfolding new_data_key
is_in_msg_list-is_among_example =
    is_in_msg_list-is_among env (text_body 2) (state none none (some known)) (50, 60) []
      ((1 ∷ 2 ∷ []) ∷ []) (one_node _ 50 60 NodeType.string (suc_ne 49) refl) refl (refl, tt) refl

only_calm :
    (p : NeighbourEntry → Type 0)
    → p calm
    → (k : Key) → table.map_get ((address_key, some calm) ∷ []) k ≢ none
    → HasEntry env p ((address_key, some calm) ∷ []) k
only_calm p holds k = by_test (same_text k address_key)
  where
    by_test :
        (b : Bool)
        → (if b then some (some calm) else none) ≢ none
        → (e : NeighbourEntry) × ((if b then some (some calm) else none) ≡ some (some e)) × p e
    by_test true ne = (calm, refl, holds)
    by_test false ne = absurd (ne refl)

-- The peer is a potential neighbour, and sent a short hello.
process_hello-moves_example :
    Returns
      (λ r.
        Answered env short_hello address
          (state none (some ((address_key, some calm) ∷ [])) none)
          log
          false
          r.1.net
        × Moved table
            ((address_key, some calm) ∷ [])
            []
            address_key
            host_key
            calm
            (1, pot_of env r.1, cur_of env r.1)
        × (r.1.locks ≡ no_locks)
        × (r.1.trace ≡ rev_onto (event_locks Event.hello) []))
      (process_hello env short_hello address
        (state none (some ((address_key, some calm) ∷ [])) none))
unfolding new_neighbour_key new_neighbour_key_sock
process_hello-moves_example =
    process_hello-moves env short_hello address
      (state none (some ((address_key, some calm) ∷ [])) none) log refl (λ text. refl) (omega arith)
      (omega arith) table-IsMapLib calm refl refl refl refl

process_hello-fault_example : process_hello env short_hello address (state none none none) ≡ fault
process_hello-fault_example =
    process_hello-fault env short_hello address (state none none none) log refl (λ text. refl)
      (omega arith) (omega arith) refl refl refl

process_go_away-moves_example :
    Returns
      (λ r.
        Moved table
          ((address_key, some calm) ∷ [])
          []
          address_key
          host_key
          calm
          (1, cur_of env r.1, pot_of env r.1)
        × (r.1.locks ≡ no_locks)
        × (r.1.trace ≡ rev_onto (event_locks Event.go_away) []))
      (process_go_away env bye address (state (some ((address_key, some calm) ∷ [])) none none))
unfolding new_neighbour_key new_neighbour_key_sock
process_go_away-moves_example =
    process_go_away-moves env address (state (some ((address_key, some calm) ∷ [])) none none) bye
      calm table-IsMapLib refl refl refl refl

add_new_neighbour-greets_example :
    (text : List ℕ) × Returns
      (λ r. AreGreeted env (state none none none) text (address ∷ []) r.1)
      (add_new_neighbour env [] [] (state none none none))
    × Acts log text (log.process_hello (record { is_long = false; source_id = 9; dest_id = 0 }))
add_new_neighbour-greets_example =
    add_new_neighbour-greets env log [] [] (address ∷ []) (state none none none) table-IsMapLib refl
      refl (λ p text. refl) (omega arith) (refl, tt, tt) refl

worker_iter_msg-ne-ok_example :
    worker_iter_msg env 1000 busy (state none none none) ≢ ok (Status.sent, state none none none)
worker_iter_msg-ne-ok_example =
    worker_iter_msg-ne-ok env 1000 busy (state none none none) (Status.sent, state none none none)
      (suc_ne 50)

worker_iter_msg-stuck_example : worker_iter_msg env 1000 busy (state none none none) ≡ stuck
worker_iter_msg-stuck_example =
    worker_iter_msg-stuck env busy (state none none none) (node NodeType.msg 0 0 61) waiting
      (suc_ne 50) refl refl (omega arith) 1000

worker_pass-fault_example :
    worker_pass env 0 (state (some ((host_key, some calm) ∷ [])) none none) ≡ fault
worker_pass-fault_example =
    worker_pass-fault env 0 host_key [] calm (state (some ((host_key, some calm) ∷ [])) none none)
      table-IsMapLib (λ p text. refl) refl refl refl refl refl

rm_n_msg-oldest_example :
    Returns
      (IsTrimmed env
        (record (state (some ((address_key, some calm) ∷ [])) none (some known)) {
          g_msg_map = some ((1 ∷ 2 ∷ [], text_body 2) ∷ []);
        })
        ((50, 60) ∷ [])
        [])
      (rm_n_msg env 1 (record (state (some ((address_key, some calm) ∷ [])) none (some known)) {
        g_msg_map = some ((1 ∷ 2 ∷ [], text_body 2) ∷ []);
      }))
rm_n_msg-oldest_example =
    rm_n_msg-oldest env 1 0
      (record (state (some ((address_key, some calm) ∷ [])) none (some known)) {
        g_msg_map = some ((1 ∷ 2 ∷ [], text_body 2) ∷ []);
      })
      ((50, 60) ∷ []) refl (omega arith) (one_node _ 50 60 NodeType.string (suc_ne 49) refl)
      ((suc_ne 59, 1 ∷ 2 ∷ [], text_body 2, refl, refl), tt) refl table-IsMapLib
      (only_calm IsIdle refl)
