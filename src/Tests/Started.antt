-- ===== src/Tests/Started.antt =====
-- The theorems on the states that the program comes to, at concrete steps from the start.
use s6_projet_reseau.Common.{ℕ, List, false, ◌≡◌, refl, arith, [], ◌∷◌}
use s6_projet_reseau.Common.Run
use s6_projet_reseau.Common.Run.{Returns, returns, blocked}
use s6_projet_reseau.Shared.{no_locks, App}
use s6_projet_reseau.Connect.Dispatch.{Acts}
use s6_projet_reseau.MsgList.{add_msg}
use s6_projet_reseau.Process.{add_new_neighbour}
use s6_projet_reseau.Process.Greet.{AreGreeted, add_new_neighbour-greets}
use s6_projet_reseau.Reached.{meet, here, then, at_start}
use s6_projet_reseau.Reached.Silent.{IsSilent}
use s6_projet_reseau.Reached.Always.{Reaches-IsSilent, add_msg-blocked}
use s6_projet_reseau.Tests.Data.{heap, net, address, log, text_body}
use s6_projet_reseau.Tests.State.{Neighbours, Messages, env}
use s6_projet_reseau.Tests.Table.{table-IsMapLib}

abbrev first_state : App Neighbours Messages
first_state = at_start heap net

greeted :
    (text : List ℕ) × Returns
      (λ r. AreGreeted env first_state text (address ∷ []) r.1)
      (add_new_neighbour env [] [] first_state)
    × Acts log text (log.process_hello (record { is_long = false; source_id = 9; dest_id = 0 }))
greeted =
    add_new_neighbour-greets env log [] [] (address ∷ []) first_state table-IsMapLib refl refl
      (λ p text. refl) (omega arith) (refl, tt, tt) refl

Reaches-IsSilent_example :
    Returns (λ r. IsSilent env no_locks r.1) (add_new_neighbour env [] [] first_state)
Reaches-IsSilent_example =
    let (r, run, done) = Run.result greeted.1 in
    rw run (
      returns (
        Reaches-IsSilent env table-IsMapLib heap net r.1 table-IsMapLib
          (then here (meet [] [] run))))

add_msg-blocked_example :
    Returns (λ r. add_msg env (text_body 2) r.1 ≡ blocked) (add_new_neighbour env [] [] first_state)
add_msg-blocked_example =
    let (r, run, done) = Run.result greeted.1 in
    rw run (
      returns (
        add_msg-blocked env table-IsMapLib heap net (text_body 2) r.1 table-IsMapLib
          (then here (meet [] [] run))))
