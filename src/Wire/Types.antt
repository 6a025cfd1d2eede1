-- ===== src/Wire/Types.antt =====
-- The TLV and message types of src/types.h.
use s6_projet_reseau.Common.{ℕ, Bool, Option, List, []}

-- A `char *`: the address that it holds, and the bytes from there to the end of the object.
pub record CharPtr : Type 0 where
  pub address : ℕ
  pub bytes : List ℕ

abbrev pub null_ptr : CharPtr
null_ptr = record { address = 0; bytes = [] }

pub record PadnBody : Type 0 where
  pub zeroes : ℕ

pub record HelloBody : Type 0 where
  pub is_long : Bool
  pub source_id : ℕ
  pub dest_id : ℕ

pub record NeighbourBody : Type 0 where
  pub ip : List ℕ
  pub port : ℕ

-- The field `data` is `content` here.
pub record DataBody : Type 0 where
  pub sender_id : ℕ
  pub nonce : ℕ
  pub type : ℕ
  pub data_len : ℕ
  pub content : CharPtr

pub record AckBody : Type 0 where
  pub sender_id : ℕ
  pub nonce : ℕ

-- A message that was never assigned is `none`.
pub record GoAwayBody : Type 0 where
  pub code : ℕ
  pub has_message : Bool
  pub message : Option CharPtr

pub record WarningBody : Type 0 where
  pub msg_len : ℕ
  pub message : CharPtr

-- What the `void *body` of a TLV points to. `unset` is a pointer that was never assigned.
pub data Body : Type 0 where
  null unset : Body
  padn : PadnBody → Body
  hello : HelloBody → Body
  neighbour : NeighbourBody → Body
  content : DataBody → Body
  ack : AckBody → Body
  go_away : GoAwayBody → Body
  warning : WarningBody → Body

-- The fields type and length are unsigned bytes.
pub record Tlv : Type 0 where
  pub type : ℕ
  pub length : ℕ
  pub body : Body

pub record Msg : Type 0 where
  pub magic : ℕ
  pub version : ℕ
  pub length : ℕ
  pub tlv_nb : ℕ
  pub body : List Tlv

abbrev pub msg_magic : ℕ
msg_magic = 93

abbrev pub msg_version : ℕ
msg_version = 2

-- The number of TLVs for which dserial_msg makes room.
abbrev pub msg_tlv_nb_def : ℕ
msg_tlv_nb_def = 64

-- struct sockaddr_in6: the text that inet_ntop makes of the address, and the port as it is stored.
pub record Sockaddr : Type 0 where
  pub ip : List ℕ
  pub sin6_port : ℕ
