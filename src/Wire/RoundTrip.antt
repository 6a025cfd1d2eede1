-- ===== src/Wire/RoundTrip.antt =====
-- A message that is written on one machine and read on another.
use s6_projet_reseau.Common.{ℕ, ◌≤◌, ◌≡◌, refl, sym, ap, ◌∙◌, arith, List, ◌++◌, length, take}
use s6_projet_reseau.Common.Run
use s6_projet_reseau.Common.Run.{Run, ok, Returns, returns, ◌>>=◌}
use s6_projet_reseau.Wire.Machine.{Machine}
use s6_projet_reseau.Wire.Types.{Msg}
use s6_projet_reseau.Wire.Sbuff.{Sbuff, written, new_sbuff, new_dsbuff}
use s6_projet_reseau.Wire.Sbuff.Append.{length-written, new_sbuff-IsSbuff, written-new_sbuff}
use s6_projet_reseau.Wire.Serial.{serial_msg}
use s6_projet_reseau.Wire.Serial.Format.{IsPlainMsg, msg_bytes, received}
use s6_projet_reseau.Wire.Serial.Encode.{serial_msg-Appends}
use s6_projet_reseau.Wire.Dserial.{dserial_msg}
use s6_projet_reseau.Wire.Dserial.Decode.{dserial_msg-Gives}

-- The bytes that are handed to sendto: the data of the buffer, as many as its real size.
abbrev pub datagram : Sbuff → List ℕ
datagram b = take b.real_size b.block

-- serial_msg into a new buffer writes the wire format and nothing else.
pub serial_msg-datagram :
    (m : Machine) (msg : Msg)
    → IsPlainMsg msg
    → Returns
        (λ b. (datagram b ≡ msg_bytes msg) × (b.real_size ≡ length (msg_bytes msg)))
        (serial_msg m msg (new_sbuff m.junk))
unfolding written
serial_msg-datagram m msg p =
    Run.mono (serial_msg-Appends m msg (new_sbuff m.junk) p (new_sbuff-IsSbuff m.junk)) λ b a.
      let text : written b ≡ msg_bytes msg =
        a.text ∙ ap (λ t. t ++ msg_bytes msg) (written-new_sbuff m.junk) in
      let all : datagram b ≡ msg_bytes msg = rw a.valid.real text in
      (all, a.valid.real ∙ sym (length-written b a.valid) ∙ ap length text)

-- What the receiver of a datagram makes of it, when the datagram lies at the start of an object
-- that holds `stale` behind it.
unfoldable pub receive : Machine → List ℕ → List ℕ → Run (Msg × Sbuff)
receive m sent stale = dserial_msg m (new_dsbuff (sent ++ stale) (length sent))

-- A message without strings, of at most 64 TLVs, that one machine writes and another of any byte
-- order reads: both runs end without a fault, and the message that is read is the one written, but
-- for the bodies of its Pad1, which are null. The bytes behind the datagram do not matter.
pub receive-serial_msg :
    (sender receiver : Machine) (msg : Msg) (stale : List ℕ)
    → IsPlainMsg msg
    → length msg.body ≤ 64
    → Returns
        (λ b.
          Returns
            (λ r. r.0 ≡ record msg { body = received msg.body })
            (receive receiver (datagram b) stale))
        (serial_msg sender msg (new_sbuff sender.junk))
unfolding receive new_dsbuff
receive-serial_msg sender receiver msg stale p few =
    Run.mono (serial_msg-datagram sender msg p) λ b (sent, _). rw sent (
      Run.mono
        (dserial_msg-Gives receiver msg
          (new_dsbuff (msg_bytes msg ++ stale) (length (msg_bytes msg))) stale p few (omega arith)
          refl)
        λ r (q, _). q)
