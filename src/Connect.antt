-- ===== src/Connect.antt =====
-- src/connect.c: the datagrams that are sent, and the dispatch of a datagram that came in.
pub mod Dispatch
pub mod Received
pub mod Sent
pub mod Kept
use s6_projet_reseau.Common.{
  ℕ, zero, suc, ◌+◌, Bool, true, false, not, List, [], ◌∷◌, ◌==◌, leb, length, take, ◌||◌,
  if◌then◌else◌,
}
use s6_projet_reseau.Common.Run.{Run, ok, fault, guard, ◌>>=◌}
use s6_projet_reseau.Wire.Machine.{Machine}
use s6_projet_reseau.Wire.TlvType
use s6_projet_reseau.Wire.Types.{
  Sockaddr, HelloBody, NeighbourBody, DataBody, AckBody, GoAwayBody, WarningBody, Tlv, Msg,
  null_ptr,
}
use s6_projet_reseau.Wire.Sbuff.{Sbuff, new_sbuff, new_dsbuff}
use s6_projet_reseau.Wire.Make.{new_tlv_hello, new_tlv_ack, new_tlv_go_away, new_msg}
use s6_projet_reseau.Wire.Serial.{
  serial_msg, as_hello, as_neighbour, as_content, as_ack, as_go_away, as_warning,
}
use s6_projet_reseau.Wire.Dserial.{dserial_msg}
use s6_projet_reseau.Wire.Free.{free_msg, free_sbuff}

-- The socket, and what sendto has accepted so far: the peer's address and the bytes.
pub record Net : Type 0 where
  pub is_open : Bool
  pub sent : List (Sockaddr × List ℕ)

-- `accepts` is false where sendto returns -1. The first component is true for 1 and false for -1.
unfoldable pub udp_send : (Sockaddr → List ℕ → Bool) → Sockaddr → Sbuff → Net → Run (Bool × Net)
udp_send accepts pair buffer net = if not net.is_open then ok (false, net) else do
  _ ← guard (leb buffer.real_size (length buffer.block))
  let text = take buffer.real_size buffer.block
  if accepts pair text
      then ok (true, record net { sent = (pair, text) ∷ net.sent })
      else ok (false, net)

-- The functions that make a message and send it do not look at the status of udp_send. The objects
-- that they free are theirs and are not used again, so freeing is left out but in send_ack.
unfoldable pub send_msg : Machine → (Sockaddr → List ℕ → Bool) → Sockaddr → Msg → Net → Run Net
send_msg m accepts pair msg net = do
  buff ← serial_msg m msg (new_sbuff m.junk)
  (status, net) ← udp_send accepts pair buff net
  ok net

unfoldable pub send_hello :
    Machine → (Sockaddr → List ℕ → Bool) → Sockaddr → Bool → ℕ → ℕ → Net → Run Net
send_hello m accepts pair is_long src_id dst_id net = do
  msg ← new_msg (new_tlv_hello is_long src_id dst_id ∷ []) 1
  b ← serial_msg m msg (new_sbuff m.junk)
  (status, net) ← udp_send accepts pair b net
  ok net

-- send_ack up to the call of udp_send.
unfoldable pub send_ack_msg :
    Machine → (Sockaddr → List ℕ → Bool) → Sockaddr → ℕ → ℕ → Net → Run (Msg × Net)
send_ack_msg m accepts pair sender_id nonce net = do
  msg ← new_msg (new_tlv_ack sender_id nonce ∷ []) 1
  buff ← serial_msg m msg (new_sbuff m.junk)
  (status, net) ← udp_send accepts pair buff net
  ok (msg, net)

-- The array of TLVs that free_msg is to free is the local variable `t`.
unfoldable pub send_ack : Machine → (Sockaddr → List ℕ → Bool) → Sockaddr → ℕ → ℕ → Net → Run Net
send_ack m accepts pair sender_id nonce net = do
  (msg, net) ← send_ack_msg m accepts pair sender_id nonce net
  _ ← free_msg false msg true
  ok net

unfoldable pub send_go_away : Machine → (Sockaddr → List ℕ → Bool) → Sockaddr → Net → Run Net
send_go_away m accepts pair net = do
  msg ← new_msg (new_tlv_go_away 2 null_ptr 0 ∷ []) 1
  buff ← serial_msg m msg (new_sbuff m.junk)
  (status, net) ← udp_send accepts pair buff net
  ok net

abbrev pub default_port : ℕ
default_port = 8090

-- The new value of server_port.
unfoldable pub set_server_port : ℕ → ℕ
set_server_port port = if port == 0 then default_port else port

-- The functions process_hello to process_warning, on a state that they share. `S` is all that they
-- read and change, the peer's address among it.
pub record Handlers (S : Type 0) : Type 0 where
  pub process_hello : HelloBody → S → Run S
  pub process_neighbour : NeighbourBody → S → Run S
  pub process_data : DataBody → S → Run S
  pub process_ack : AckBody → S → Run S
  pub process_go_away : GoAwayBody → S → Run S
  pub process_warning : WarningBody → S → Run S

-- process_datagram frees the message and the buffer at the end.
unfoldable pub free_datagram : {S : Type 0} → Bool → Msg → Sbuff → S → Run S
free_datagram from_malloc msg buffer s = do
  _ ← free_msg true msg false
  _ ← free_sbuff from_malloc buffer
  ok s

module _ {S : Type 0} (handlers : Handlers S) where
  -- The switch of process_datagram; its case for PadN stands in process_tlvs.
  unfoldable pub process_tlv : Tlv → S → Run S
  process_tlv t s =
      if t.type == TlvType.hello
      then (do b ← as_hello t.body; handlers.process_hello b s)
      else if t.type == TlvType.neighbour
      then (do b ← as_neighbour t.body; handlers.process_neighbour b s)
      else if t.type == TlvType.content
      then (do b ← as_content t.body; handlers.process_data b s)
      else if t.type == TlvType.ack
      then (do b ← as_ack t.body; handlers.process_ack b s)
      else if t.type == TlvType.go_away
      then (do b ← as_go_away t.body; handlers.process_go_away b s)
      else if t.type == TlvType.warning
      then (do b ← as_warning t.body; handlers.process_warning b s)
      else ok s

  -- The loop over the `n` TLVs that are left, and then `finish`. A PadN makes process_datagram return.
  unfoldable pub process_tlvs : (S → Run S) → ℕ → List Tlv → S → Run S
  process_tlvs finish zero ts s = finish s
  process_tlvs finish (suc n) [] s = fault
  process_tlvs finish (suc n) (t ∷ ts) s =
      if t.type == TlvType.padn then ok s else do s ← process_tlv t s; process_tlvs finish n ts s

  -- `input` is the object that holds the datagram, of which it has `len` bytes; `from_malloc` says
  -- whether malloc gave it.
  unfoldable pub process_datagram : Machine → Bool → List ℕ → ℕ → S → Run S
  process_datagram m from_malloc input len s = do
    (msg, buffer) ← dserial_msg m (new_dsbuff input len)
    if not (msg.magic == 93) || not (msg.version == 2)
        then ok s
        else process_tlvs (free_datagram from_malloc msg buffer) msg.tlv_nb msg.body s
