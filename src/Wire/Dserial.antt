-- ===== src/Wire/Dserial.antt =====
-- The reading half of src/serialization.c. A function returns its result and the buffer. Reading
-- past the end of the object faults; the lengths that the sender wrote are not checked.
pub mod Content
pub mod Meant
pub mod Restored
pub mod Parse
pub mod Decode
pub mod Safety
pub mod Overread
use s6_projet_reseau.Common.{
  ℕ, zero, suc, ◌+◌, ◌-◌, ◌%◌, ◌^◌, ◌≡◌, Bool, true, false, List, [], ◌∷◌, ltb, ◌==◌, if◌then◌else◌,
  length as count,
}
use s6_projet_reseau.Common.Run.{Run, ok, fault, stuck, ◌>>=◌, guard}
use s6_projet_reseau.Wire.Host.{mem_value, hton, ntohll}
use s6_projet_reseau.Wire.Machine.{Machine}
use s6_projet_reseau.Wire.Types.{
  CharPtr, null_ptr, PadnBody, HelloBody, NeighbourBody, DataBody, AckBody, GoAwayBody, WarningBody,
  Body, Tlv, Msg, msg_tlv_nb_def,
}
use s6_projet_reseau.Wire.TlvType
use s6_projet_reseau.Wire.Make.{
  new_padn_body, new_hello_body, new_neighbour_body, new_data_body, new_ack_body, new_go_away_body,
  new_warning_body,
}
use s6_projet_reseau.Wire.Sbuff.{Sbuff, get_bytes}

module _ (m : Machine) where
  open m use {order, str_address}

  unfoldable pub dserial_char : Sbuff → Run (ℕ × Sbuff)
  dserial_char b = do (bs, b) ← get_bytes 1 b; ok (mem_value order bs, b)

  unfoldable pub dserial_short : Sbuff → Run (ℕ × Sbuff)
  dserial_short b = do (bs, b) ← get_bytes 2 b; ok (hton order 2 (mem_value order bs), b)

  unfoldable pub dserial_int : Sbuff → Run (ℕ × Sbuff)
  dserial_int b = do (bs, b) ← get_bytes 4 b; ok (hton order 4 (mem_value order bs), b)

  unfoldable pub dserial_long : Sbuff → Run (ℕ × Sbuff)
  dserial_long b = do (bs, b) ← get_bytes 8 b; ok (ntohll order (mem_value order bs), b)

  -- `n` calls of dserial_char.
  unfoldable pub dserial_chars : ℕ → Sbuff → Run (List ℕ × Sbuff)
  unfolding dserial_char
  dserial_chars zero b = ok ([], b)
  dserial_chars (suc n) b = do (c, b) ← dserial_char b; (s, b) ← dserial_chars n b; ok (c ∷ s, b)

  -- From 2 ^ 63 bytes on malloc returns null, which is written to. From 2 ^ 31 on the counter, an int,
  -- overflows unless a read faults before.
  unfoldable pub dserial_str : ℕ → Sbuff → Run (CharPtr × Sbuff)
  unfolding dserial_chars
  dserial_str str_len b = do
    _ ← guard (ltb str_len (2 ^ 31))
    (s, b') ← dserial_chars str_len b
    ok (record { address = str_address b.next; bytes = s }, b')

  unfoldable pub dserial_padn_body : ℕ → Sbuff → Run (PadnBody × Sbuff)
  unfolding dserial_chars new_padn_body
  dserial_padn_body tlv_len b = do (_, b) ← dserial_chars tlv_len b; ok (new_padn_body tlv_len, b)

  -- `is_long ? dserial_long(b) : 0`
  unfoldable pub dserial_dest : Bool → Sbuff → Run (ℕ × Sbuff)
  unfolding dserial_long
  dserial_dest is_long b = if is_long then dserial_long b else ok (0, b)

  unfoldable pub dserial_hello_body : ℕ → Sbuff → Run (HelloBody × Sbuff)
  unfolding dserial_long dserial_dest new_hello_body
  dserial_hello_body tlv_len b = do
    (src_id, b) ← dserial_long b
    (dst_id, b) ← dserial_dest (ltb 8 tlv_len) b
    ok (new_hello_body (ltb 8 tlv_len) src_id dst_id, b)

  unfoldable pub dserial_neighbour_body : ℕ → Sbuff → Run (NeighbourBody × Sbuff)
  unfolding dserial_str dserial_short new_neighbour_body
  dserial_neighbour_body tlv_len b = do
    (ip, b) ← dserial_str 16 b
    (port, b) ← dserial_short b
    out ← new_neighbour_body ip.bytes port
    ok (out, b)

  -- The length of the data is a size_t: below 13 it wraps.
  unfoldable pub dserial_data_body : ℕ → Sbuff → Run (DataBody × Sbuff)
  unfolding dserial_long dserial_int dserial_char dserial_str new_data_body
  dserial_data_body tlv_len b = do
    (sender_id, b) ← dserial_long b
    (nonce, b) ← dserial_int b
    (type, b) ← dserial_char b
    let data_len = (tlv_len + 2 ^ 64 - 8 - 4 - 1) % 2 ^ 64
    (content, b) ← dserial_str data_len b
    ok (new_data_body sender_id nonce type content data_len, b)

  unfoldable pub dserial_ack_body : ℕ → Sbuff → Run (AckBody × Sbuff)
  unfolding dserial_long dserial_int new_ack_body
  dserial_ack_body tlv_len b = do
    (sender_id, b) ← dserial_long b
    (nonce, b) ← dserial_int b
    ok (new_ack_body sender_id nonce, b)

  -- The message of a GoAway that is longer than its code.
  unfoldable pub dserial_message : ℕ → ℕ → Sbuff → Run (GoAwayBody × Sbuff)
  unfolding dserial_str new_go_away_body
  dserial_message code len b = do
    (msg, b) ← dserial_str len b
    ok (new_go_away_body code msg len, b)

  unfoldable pub dserial_go_away_body : ℕ → Sbuff → Run (GoAwayBody × Sbuff)
  unfolding dserial_char dserial_message new_go_away_body
  dserial_go_away_body tlv_len b = do
    (code, b) ← dserial_char b
    if ltb 1 tlv_len
        then dserial_message code (tlv_len - 1) b
        else ok (new_go_away_body code null_ptr 0, b)

  unfoldable pub dserial_warning_body : ℕ → Sbuff → Run (WarningBody × Sbuff)
  unfolding dserial_str new_warning_body
  dserial_warning_body tlv_len b = do
    (msg, b) ← dserial_str tlv_len b
    ok (new_warning_body msg tlv_len, b)

  -- The switch of dserial_tlv.
  unfoldable pub dserial_body : ℕ → ℕ → Sbuff → Run (Body × Sbuff)
  unfolding dserial_padn_body dserial_hello_body dserial_neighbour_body dserial_data_body
      dserial_ack_body dserial_go_away_body dserial_warning_body
  dserial_body type len b =
      if type == TlvType.pad1
      then ok (Body.null, b)
      else if type == TlvType.padn
      then (do (e, b) ← dserial_padn_body len b; ok (Body.padn e, b))
      else if type == TlvType.hello
      then (do (e, b) ← dserial_hello_body len b; ok (Body.hello e, b))
      else if type == TlvType.neighbour
      then (do (e, b) ← dserial_neighbour_body len b; ok (Body.neighbour e, b))
      else if type == TlvType.content
      then (do (e, b) ← dserial_data_body len b; ok (Body.content e, b))
      else if type == TlvType.ack
      then (do (e, b) ← dserial_ack_body len b; ok (Body.ack e, b))
      else if type == TlvType.go_away
      then (do (e, b) ← dserial_go_away_body len b; ok (Body.go_away e, b))
      else if type == TlvType.warning
      then (do (e, b) ← dserial_warning_body len b; ok (Body.warning e, b))
      else ok (Body.null, b)

  unfoldable pub dserial_tlv : Sbuff → Run (Tlv × Sbuff)
  unfolding dserial_char dserial_body
  dserial_tlv b = do
    (type, b) ← dserial_char b
    (length, b) ← dserial_char b
    (body, b) ← dserial_body type length b
    ok (record { type = type; length = length; body = body }, b)

  -- `for (int i = 0; b->next < b->real_size; i++, count++)`. The array has room for a fixed number
  -- of TLVs, and storing one more is outside it.
  unfoldable pub dserial_tlvs : ℕ → ℕ → Sbuff → Run (List Tlv × Sbuff)
  unfolding dserial_tlv
  dserial_tlvs zero i b = stuck
  dserial_tlvs (suc fuel) i b =
      let step : Run (List Tlv × Sbuff) = do
        (t, b) ← dserial_tlv b
        _ ← guard (ltb i msg_tlv_nb_def)
        (ts, b) ← dserial_tlvs fuel (i + 1) b
        ok (t ∷ ts, b)
      in if ltb b.next b.real_size then step else ok ([], b)

  -- Each TLV takes two bytes at least, so these rounds are enough.
  unfoldable pub dserial_msg : Sbuff → Run (Msg × Sbuff)
  unfolding dserial_char dserial_short dserial_tlvs
  dserial_msg b = do
    (magic, b) ← dserial_char b
    (version, b) ← dserial_char b
    (length, b) ← dserial_short b
    (body, b) ← dserial_tlvs (b.real_size + 1) 0 b
    ok (
      record {
        magic = magic;
        version = version;
        length = length;
        tlv_nb = count body;
        body = body;
      },
      b,
    )
