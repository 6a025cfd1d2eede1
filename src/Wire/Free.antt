-- ===== src/Wire/Free.antt =====
-- The destructors of src/types.c: free_padn_body to free_msg. A destructor returns the objects that
-- it frees, in order.
pub mod Agree
use s6_projet_reseau.Common.{
  ℕ, zero, suc, Bool, true, false, Option, none, some, List, [], ◌∷◌, ◌++◌, ltb, ◌==◌,
  if◌then◌else◌,
}
use s6_projet_reseau.Common.Run.{Run, ok, fault, guard, from_option, ◌>>=◌}
use s6_projet_reseau.Wire.Types.{CharPtr, DataBody, GoAwayBody, WarningBody, Body, Tlv, Msg}
use s6_projet_reseau.Wire.TlvType
use s6_projet_reseau.Wire.Sbuff.{Sbuff}
use s6_projet_reseau.Wire.Serial.{as_content, as_go_away, as_warning}

pub data Object : Type 0 where
  body_object : Body → Object
  text_object : CharPtr → Object
  tlv_object : Tlv → Object
  array_object : List Tlv → Object
  msg_object : Msg → Object
  block_object : List ℕ → Object
  sbuff_object : Sbuff → Object

-- free of the body of a TLV: of null it does nothing, and a pointer that was never assigned is not
-- from malloc.
unfoldable pub free_pointer : Body → Run (List Object)
free_pointer Body.null = ok []
free_pointer Body.unset = fault
free_pointer body = ok (body_object body ∷ [])

abbrev pub free_padn_body : Body → Run (List Object)
free_padn_body b = free_pointer b

-- free_tlv uses it for a neighbour too, which is the same call of free.
abbrev pub free_hello_body : Body → Run (List Object)
free_hello_body b = free_pointer b

abbrev pub free_ack_body : Body → Run (List Object)
free_ack_body b = free_pointer b

unfoldable pub free_data_body : DataBody → List Object
free_data_body b = text_object b.content ∷ body_object (Body.content b) ∷ []

unfoldable pub free_go_away_body : GoAwayBody → Run (List Object)
free_go_away_body b =
    if b.has_message
    then (do
      message ← from_option b.message
      ok (text_object message ∷ body_object (Body.go_away b) ∷ []))
    else ok (body_object (Body.go_away b) ∷ [])

unfoldable pub free_warning_body : WarningBody → List Object
free_warning_body b =
    (if ltb 0 b.msg_len then text_object b.message ∷ [] else [])
    ++ (body_object (Body.warning b) ∷ [])

-- The switch of free_tlv.
unfoldable pub free_body : ℕ → Body → Run (List Object)
free_body type body =
    if type == TlvType.pad1
    then ok []
    else if type == TlvType.padn
    then free_padn_body body
    else if type == TlvType.hello
    then free_hello_body body
    else if type == TlvType.neighbour
    then free_hello_body body
    else if type == TlvType.content
    then (do b ← as_content body; ok (free_data_body b))
    else if type == TlvType.ack
    then free_ack_body body
    else if type == TlvType.go_away
    then (do b ← as_go_away body; free_go_away_body b)
    else if type == TlvType.warning
    then (do b ← as_warning body; ok (free_warning_body b))
    else ok []

unfoldable pub free_tlv : Tlv → Run (List Object)
free_tlv t = do os ← free_body t.type t.body; ok (os ++ (tlv_object t ∷ []))

-- The loop of free_msg over the `n` TLVs that are left.
unfoldable pub free_tlvs : ℕ → List Tlv → Run (List Object)
free_tlvs zero ts = ok []
free_tlvs (suc n) [] = fault
free_tlvs (suc n) (t ∷ ts) = do os ← free_tlv t; rest ← free_tlvs n ts; ok (os ++ rest)

-- The array of the TLVs must be from malloc. That of a message from dserial_msg is; that of a message
-- from new_msg is the array of the caller.
unfoldable pub free_msg : Bool → Msg → Bool → Run (List Object)
free_msg from_malloc m tlv = do
  os ← if tlv then free_tlvs m.tlv_nb m.body else ok []
  _ ← guard from_malloc
  ok (os ++ (array_object m.body ∷ msg_object m ∷ []))

-- The data of a buffer must be from malloc. That of new_sbuff is; that of new_dsbuff is the object of
-- the caller.
unfoldable pub free_sbuff : Bool → Sbuff → Run (List Object)
free_sbuff from_malloc b = do _ ← guard from_malloc; ok (block_object b.block ∷ sbuff_object b ∷ [])
