-- ===== src/Tests/Served.antt =====
-- The theorems on the server at concrete arrivals.
use s6_projet_reseau.Common.{◌≡◌, ◌≢◌, refl, arith, true, some, [], ◌∷◌, ◌++◌}
use s6_projet_reseau.Common.Run.{ok}
use s6_projet_reseau.Wire.TlvType
use s6_projet_reseau.Wire.Types.{Body}
use s6_projet_reseau.Wire.Serial.Format.{tlv_bytes}
use s6_projet_reseau.Wire.Dserial.Meant.{Meant, datagram_bytes, all_bytes, meant_bytes}
use s6_projet_reseau.Server.{Setup, timeout, datagram_from, server_round, udp_server}
use s6_projet_reseau.Server.Round.{server_round-padn}
use s6_projet_reseau.Server.Stop.{udp_server-Never}
use s6_projet_reseau.Tests.Data.{pc, net, log, address, hello_tlv, ack_tlv}

abbrev hello : Meant
hello = Meant.simple hello_tlv

abbrev ack : Meant
ack = Meant.simple ack_tlv

abbrev padn : Meant
padn =
    Meant.simple
      (record { type = TlvType.padn; length = 0; body = Body.padn (record { zeroes = 0 }) })

-- The acknowledgement stands behind the PadN.
server_round-padn_example :
    server_round
      (λ client. log)
      pc
      (datagram_from address (datagram_bytes 34 ((hello ∷ []) ++ (padn ∷ ack ∷ []))) [])
      []
    ≡ ok (2 ∷ [])
unfolding datagram_bytes all_bytes meant_bytes tlv_bytes
server_round-padn_example =
    server_round-padn (λ client. log) pc address 34 (hello ∷ []) padn (ack ∷ []) [] [] (omega arith)
      (
        (refl, refl, omega arith, omega arith, refl),
        ((refl, refl, omega arith), ((refl, refl, omega arith, omega arith), tt)),
      )
      (omega arith) (omega arith) refl

abbrev calls : Setup
calls = record { socket_ok = true; getfl_ok = true; setfl_ok = true; bind_ok = true }

udp_server-Never_example :
    udp_server
      (λ client. log)
      pc
      calls
      (λ s. net)
      (λ n s. s)
      ((timeout ∷ []) ++ (datagram_from address (datagram_bytes 32 (hello ∷ ack ∷ [])) [] ∷ []))
      []
    ≢ ok (some (5 ∷ 2 ∷ []))
unfolding datagram_bytes all_bytes meant_bytes tlv_bytes
udp_server-Never_example =
    udp_server-Never (λ client. log) pc calls (λ s. net) (λ n s. s) (timeout ∷ []) address 32
      (hello ∷ ack ∷ []) [] [] [] (omega arith)
      ((refl, refl, omega arith, omega arith, refl), ((refl, refl, omega arith, omega arith), tt))
      (omega arith) (omega arith) (refl, (refl, tt)) (5 ∷ 2 ∷ [])
