-- ===== src/Tests/Received.antt =====
-- The theorems on datagrams in the wire format at a concrete one.
use s6_projet_reseau.Common.{◌≡◌, refl, true, false, arith, List, [], ◌∷◌, ◌++◌, length, none}
use s6_projet_reseau.Common.Run.{ok, fault}
use s6_projet_reseau.Wire.Dserial.Meant.{Meant, datagram_bytes}
use s6_projet_reseau.Connect.{process_datagram}
use s6_projet_reseau.Connect.Received.{process_datagram-handled_at}
use s6_projet_reseau.Process.{handlers}
use s6_projet_reseau.Process.Received.{receive_data-fault}
use s6_projet_reseau.Tests.Data.{server, log, address, hello_tlv, peer_body}
use s6_projet_reseau.Tests.State.{env, state}

abbrev hi : Meant
hi = Meant.content 7 513 0 (104 ∷ 105 ∷ [])

abbrev gossip : List Meant
gossip =
    Meant.simple hello_tlv ∷ Meant.neighbour peer_body.ip 8090 ∷ hi ∷ Meant.warning (33 ∷ []) ∷ []

-- A hello, a neighbour, data and a warning.
process_datagram-handled_at_example :
    process_datagram log server true
      (datagram_bytes 56 gossip ++ (0 ∷ []))
      (length (datagram_bytes 56 gossip))
      []
    ≡ ok (7 ∷ 4 ∷ 3 ∷ 2 ∷ [])
process_datagram-handled_at_example =
    process_datagram-handled_at log server true 56 gossip (0 ∷ []) [] (omega arith)
      (
        (refl, refl, omega arith, omega arith, refl),
        ((refl, omega arith), ((omega arith, omega arith, omega arith), (omega arith, tt))),
      )
      (omega arith)

receive_data-fault_example :
    process_datagram
      (handlers env address)
      env.machine
      false
      (datagram_bytes 17 (hi ∷ []) ++ [])
      (length (datagram_bytes 17 (hi ∷ [])))
      (state none none none)
    ≡ fault
receive_data-fault_example =
    receive_data-fault env address (state none none none) false 17 7 513 0 (104 ∷ 105 ∷ []) [] []
      (omega arith) (omega arith, omega arith, omega arith) tt (omega arith) refl (λ t. refl)
