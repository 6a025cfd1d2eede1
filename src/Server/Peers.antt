-- ===== src/Server/Peers.antt =====
-- A datagram of a neighbour that the server reads with the handlers of the program.
use s6_projet_reseau.Common.{List, [], ◌∷◌, length}
use s6_projet_reseau.Common.Run
use s6_projet_reseau.Common.Run.{Run}
use s6_projet_reseau.Wire.TlvType
use s6_projet_reseau.Wire.Types.{AckBody, Body}
use s6_projet_reseau.Wire.Dserial.Meant.{Meant}

-- An acknowledgement, and a PadN of no bytes behind it.
abbrev pub ack_padn : AckBody → List Meant
ack_padn b =
    Meant.simple (record { type = TlvType.ack; length = 12; body = Body.ack b })
    ∷ Meant.simple
        (record { type = TlvType.padn; length = 0; body = Body.padn (record { zeroes = 0 }) })
    ∷ []
