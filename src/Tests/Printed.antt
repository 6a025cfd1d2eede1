-- ===== src/Tests/Printed.antt =====
-- The theorem on print_msg at a concrete message.
use s6_projet_reseau.Common.{◌≡◌, refl, arith, true, [], ◌∷◌, ◌++◌, length}
use s6_projet_reseau.Common.Run.{Returns}
use s6_projet_reseau.Wire.Sbuff.{new_dsbuff}
use s6_projet_reseau.Wire.Dserial.{dserial_msg}
use s6_projet_reseau.Wire.Dserial.Meant.{Meant, datagram_bytes}
use s6_projet_reseau.Printing.{Printf, print_msg}
use s6_projet_reseau.Printing.Messages.{is_ok, dserial_msg-print_msg}
use s6_projet_reseau.Tests.Data.{pc, ack_tlv}

abbrev plain_printf : Printf
plain_printf = record { d = λ n. n ∷ []; ld = λ n. n ∷ []; u = λ n. n ∷ [] }

dserial_msg-print_msg_example :
    Returns
      (λ r. is_ok (print_msg plain_printf r.0) ≡ true)
      (dserial_msg pc (
        new_dsbuff
          (datagram_bytes 20 (Meant.simple ack_tlv ∷ Meant.warning (b'!' ∷ 0 ∷ []) ∷ []) ++ [])
          (length (datagram_bytes 20 (Meant.simple ack_tlv ∷ Meant.warning (b'!' ∷ 0 ∷ []) ∷ [])))))
dserial_msg-print_msg_example =
    dserial_msg-print_msg plain_printf pc 20
      (Meant.simple ack_tlv ∷ Meant.warning (b'!' ∷ 0 ∷ []) ∷ []) [] (omega arith)
      ((refl, refl, omega arith, omega arith), (omega arith, tt)) (omega arith)
