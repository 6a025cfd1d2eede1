-- ===== src/Tests/Messages.antt =====
-- The theorems on messages at concrete messages.
use s6_projet_reseau.Common.{
  ℕ, ◌%◌, ◌^◌, ◌≤◌, ◌≡◌, refl, arith, true, List, [], ◌∷◌, ◌++◌, length, take, be_bytes,
}
use s6_projet_reseau.Common.Run.{fault, Returns, Ends}
use s6_projet_reseau.Wire.TlvType
use s6_projet_reseau.Wire.Host.{mem_bytes}
use s6_projet_reseau.Wire.Types.{Msg}
use s6_projet_reseau.Wire.Sbuff.{Sbuff, new_sbuff}
use s6_projet_reseau.Wire.Sbuff.Append.{Appends, new_sbuff-IsSbuff}
use s6_projet_reseau.Wire.Make.{new_msg}
use s6_projet_reseau.Wire.Make.Plain.{new_msg-IsPlainMsg}
use s6_projet_reseau.Wire.Serial.{serial_msg, serial_data_body}
use s6_projet_reseau.Wire.Serial.Format.{IsPlainMsg, msg_bytes, tlvs_bytes, received}
use s6_projet_reseau.Wire.Serial.Encode.{serial_msg-Appends}
use s6_projet_reseau.Wire.Serial.Strings.{serial_data_body-Appends}
use s6_projet_reseau.Wire.Dserial.{dserial_msg}
use s6_projet_reseau.Wire.Dserial.Safety.{dserial_msg-Ends}
use s6_projet_reseau.Wire.RoundTrip.{datagram, receive, receive-serial_msg}
use s6_projet_reseau.Wire.ShortData.{receive-fault}
use s6_projet_reseau.Connect.{send_ack_msg, process_datagram}
use s6_projet_reseau.Connect.Dispatch.{ended, handled, process_datagram-handled}
use s6_projet_reseau.Connect.Sent.{Delivered, send_ack_msg-process_ack}
use s6_projet_reseau.Tests.Data.{
  address, pc, server, ack_tlv, message, message-IsPlainMsg, text_body, net, log,
}

process_datagram-handled_example :
    Returns
      (λ b.
        process_datagram log server true (datagram b ++ (1 ∷ [])) (length (datagram b)) []
        ≡ handled log (ended true) message.body [])
      (serial_msg pc message (new_sbuff pc.junk))
process_datagram-handled_example =
    process_datagram-handled log pc server true message (1 ∷ []) [] message-IsPlainMsg refl refl
      (omega arith)

receive-serial_msg_example :
    Returns
      (λ b.
        Returns
          (λ r. r.0 ≡ record message { body = received message.body })
          (receive server (datagram b) (1 ∷ [])))
      (serial_msg pc message (new_sbuff pc.junk))
receive-serial_msg_example =
    receive-serial_msg pc server message (1 ∷ []) message-IsPlainMsg (omega arith)

serial_msg-Appends_example :
    Returns
      (Appends (new_sbuff pc.junk) (msg_bytes message))
      (serial_msg pc message (new_sbuff pc.junk))
serial_msg-Appends_example =
    serial_msg-Appends pc message (new_sbuff pc.junk) message-IsPlainMsg (new_sbuff-IsSbuff pc.junk)

send_ack_msg-process_ack_example :
    Returns
      (λ r. Delivered log address net (log.process_ack (record { sender_id = 7; nonce = 513 })) r.1)
      (send_ack_msg pc (λ pair text. true) address 7 513 net)
send_ack_msg-process_ack_example =
    send_ack_msg-process_ack log pc (λ pair text. true) address net refl (λ text. refl) 7 513
      (omega arith) (omega arith)

-- A datagram with one acknowledgement.
abbrev input : List ℕ
input = 93 ∷ 2 ∷ 0 ∷ 14 ∷ 5 ∷ 12 ∷ 0 ∷ 0 ∷ 0 ∷ 0 ∷ 0 ∷ 0 ∷ 0 ∷ 7 ∷ 0 ∷ 0 ∷ 2 ∷ 1 ∷ []

abbrev input_buffer : Sbuff
input_buffer = record { size = 18; next = 0; real_size = 18; block = input }

abbrev input_msg : Msg
input_msg = record { magic = 93; version = 2; length = 14; tlv_nb = 1; body = ack_tlv ∷ [] }

dserial_msg-Ends_example :
    Ends
      (λ r.
        (r.0.tlv_nb ≡ length r.0.body) × (r.0.tlv_nb ≤ 64) × (input_buffer.real_size ≤ r.1.next))
      (dserial_msg pc input_buffer)
dserial_msg-Ends_example = dserial_msg-Ends pc input_buffer

new_msg-IsPlainMsg_example :
    Returns
      (λ msg.
        IsPlainMsg msg
        × (msg.body ≡ message.body)
        × (msg.length ≡ length (tlvs_bytes message.body) % 2 ^ 16))
      (new_msg message.body (length message.body))
new_msg-IsPlainMsg_example = new_msg-IsPlainMsg message.body message-IsPlainMsg.plain

receive-fault_example :
    receive pc ((93 ∷ 2 ∷ []) ++ (be_bytes 2 2 ++ (TlvType.content ∷ 5 ∷ []))) (9 ∷ []) ≡ fault
receive-fault_example = receive-fault pc 2 5 [] (9 ∷ []) (omega arith) (omega arith)

serial_data_body-Appends_example :
    Returns
      (Appends (new_sbuff pc.junk) (
        be_bytes 8 7
        ++ (be_bytes 4 513 ++ (((0 % 256) ∷ []) ++ take 2 (mem_bytes pc.order 8 8192)))))
      (serial_data_body pc (text_body 2) (new_sbuff pc.junk))
serial_data_body-Appends_example =
    serial_data_body-Appends pc (text_body 2) (new_sbuff pc.junk) (omega arith)
      (new_sbuff-IsSbuff pc.junk)
