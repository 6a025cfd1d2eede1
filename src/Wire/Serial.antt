-- ===== src/Wire/Serial.antt =====
-- The writing half of src/serialization.c. A function returns the buffer that it updates.
pub mod Format
pub mod Scalars
pub mod Encode
pub mod Strings
use s6_projet_reseau.Common.{
  ℕ, zero, suc, ◌+◌, ◌%◌, ◌≡◌, Bool, true, false, Option, none, some, List, [], ◌∷◌, length, take,
  leb, ◌==◌, if◌then◌else◌,
}
use s6_projet_reseau.Common.Run.{Run, ok, fault, ◌>>=◌, guard, from_option}
use s6_projet_reseau.Wire.Host.{mem_bytes, hton, htonll}
use s6_projet_reseau.Wire.Types.{
  CharPtr, PadnBody, HelloBody, NeighbourBody, DataBody, AckBody, GoAwayBody, WarningBody, Body,
  Tlv, Msg,
}
use s6_projet_reseau.Wire.Machine.{Machine}
use s6_projet_reseau.Wire.TlvType
use s6_projet_reseau.Wire.Sbuff.{Sbuff, sbuff_reserve_space, put_bytes}

-- The casts of the `void *body` of a TLV; a body of another type is no such object.
abbrev pub as_padn : Body → Run PadnBody
as_padn (Body.padn e) = ok e
as_padn _ = fault

abbrev pub as_hello : Body → Run HelloBody
as_hello (Body.hello e) = ok e
as_hello _ = fault

abbrev pub as_neighbour : Body → Run NeighbourBody
as_neighbour (Body.neighbour e) = ok e
as_neighbour _ = fault

abbrev pub as_content : Body → Run DataBody
as_content (Body.content e) = ok e
as_content _ = fault

abbrev pub as_ack : Body → Run AckBody
as_ack (Body.ack e) = ok e
as_ack _ = fault

abbrev pub as_go_away : Body → Run GoAwayBody
as_go_away (Body.go_away e) = ok e
as_go_away _ = fault

abbrev pub as_warning : Body → Run WarningBody
as_warning (Body.warning e) = ok e
as_warning _ = fault

-- strlen: the bytes before the first zero, which must lie in the object.
unfoldable pub strlen : List ℕ → Run ℕ
strlen [] = fault
strlen (c ∷ s) = let rest = strlen s in if c == 0 then ok 0 else (do n ← rest; ok (suc n))

module _ (m : Machine) where
  open m use {order, junk, ip_address}

  unfoldable pub serial_char : ℕ → Sbuff → Run Sbuff
  serial_char c b = do b ← sbuff_reserve_space junk b 1; put_bytes ((c % 256) ∷ []) b

  unfoldable pub serial_short : ℕ → Sbuff → Run Sbuff
  serial_short s b = do
    b ← sbuff_reserve_space junk b 2
    put_bytes (mem_bytes order 2 (hton order 2 s)) b

  unfoldable pub serial_int : ℕ → Sbuff → Run Sbuff
  serial_int i b = do
    b ← sbuff_reserve_space junk b 4
    put_bytes (mem_bytes order 4 (hton order 4 i)) b

  unfoldable pub serial_long : ℕ → Sbuff → Run Sbuff
  serial_long l b = do
    b ← sbuff_reserve_space junk b 8
    put_bytes (mem_bytes order 8 (htonll order l)) b

  -- memcpy copies from `&s`, the parameter itself, which is an object of eight bytes.
  unfoldable pub serial_str : CharPtr → ℕ → Sbuff → Run Sbuff
  serial_str s str_len b = do
    b ← sbuff_reserve_space junk b str_len
    _ ← guard (leb str_len 8)
    put_bytes (take str_len (mem_bytes order 8 s.address)) b

  -- The loop over the zeroes that are left.
  unfoldable pub serial_zeroes : ℕ → Sbuff → Run Sbuff
  unfolding serial_char
  serial_zeroes zero b = ok b
  serial_zeroes (suc n) b = do b ← serial_char 0 b; serial_zeroes n b

  unfoldable pub serial_padn_body : PadnBody → Sbuff → Run Sbuff
  unfolding serial_zeroes
  serial_padn_body e b = serial_zeroes e.zeroes b

  unfoldable pub serial_hello_body : HelloBody → Sbuff → Run Sbuff
  unfolding serial_long
  serial_hello_body e b = do
    b ← serial_long e.source_id b
    if e.is_long then serial_long e.dest_id b else ok b

  unfoldable pub serial_neighbour_body : NeighbourBody → Sbuff → Run Sbuff
  unfolding serial_str serial_short
  serial_neighbour_body e b = do
    b ← serial_str (record { address = ip_address e; bytes = e.ip }) 16 b
    serial_short e.port b

  unfoldable pub serial_data_body : DataBody → Sbuff → Run Sbuff
  unfolding serial_str serial_long serial_int serial_char
  serial_data_body e b = do
    b ← serial_long e.sender_id b
    b ← serial_int e.nonce b
    b ← serial_char e.type b
    serial_str e.content e.data_len b

  unfoldable pub serial_ack_body : AckBody → Sbuff → Run Sbuff
  unfolding serial_long serial_int
  serial_ack_body e b = do b ← serial_long e.sender_id b; serial_int e.nonce b

  -- strlen of a pointer, and the write of so many bytes.
  unfoldable pub serial_text : CharPtr → Sbuff → Run Sbuff
  unfolding strlen serial_str
  serial_text message b = do n ← strlen message.bytes; serial_str message n b

  unfoldable pub serial_go_away_body : GoAwayBody → Sbuff → Run Sbuff
  unfolding serial_char serial_text
  serial_go_away_body e b = do
    b ← serial_char e.code b
    if e.has_message then (do message ← from_option e.message; serial_text message b) else ok b

  unfoldable pub serial_warning_body : WarningBody → Sbuff → Run Sbuff
  unfolding serial_text
  serial_warning_body e b = serial_text e.message b

  -- The switch of serial_tlv.
  unfoldable pub serial_body : ℕ → Body → Sbuff → Run Sbuff
  unfolding serial_padn_body serial_hello_body serial_neighbour_body serial_data_body
      serial_ack_body serial_go_away_body serial_warning_body
  serial_body type body b =
      if type == TlvType.pad1
      then ok b
      else if type == TlvType.padn
      then (do e ← as_padn body; serial_padn_body e b)
      else if type == TlvType.hello
      then (do e ← as_hello body; serial_hello_body e b)
      else if type == TlvType.neighbour
      then (do e ← as_neighbour body; serial_neighbour_body e b)
      else if type == TlvType.content
      then (do e ← as_content body; serial_data_body e b)
      else if type == TlvType.ack
      then (do e ← as_ack body; serial_ack_body e b)
      else if type == TlvType.go_away
      then (do e ← as_go_away body; serial_go_away_body e b)
      else if type == TlvType.warning
      then (do e ← as_warning body; serial_warning_body e b)
      else ok b

  unfoldable pub serial_tlv : Tlv → Sbuff → Run Sbuff
  unfolding serial_char serial_body
  serial_tlv t b = do
    b ← serial_char t.type b
    b ← serial_char t.length b
    serial_body t.type t.body b

  -- `for (int i = 0; i < m->tlv_nb; i++)`, over the TLVs that are left.
  unfoldable pub serial_tlvs : ℕ → List Tlv → Sbuff → Run Sbuff
  unfolding serial_tlv
  serial_tlvs zero ts b = ok b
  serial_tlvs (suc n) [] b = fault
  serial_tlvs (suc n) (t ∷ ts) b = do b ← serial_tlv t b; serial_tlvs n ts b

  unfoldable pub serial_msg : Msg → Sbuff → Run Sbuff
  unfolding serial_char serial_short serial_tlvs
  serial_msg msg b = do
    b ← serial_char msg.magic b
    b ← serial_char msg.version b
    b ← serial_short msg.length b
    serial_tlvs msg.tlv_nb msg.body b
