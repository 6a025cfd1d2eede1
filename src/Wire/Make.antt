-- ===== src/Wire/Make.antt =====
-- The constructors of src/types.c: new_padn_body to new_msg. An allocation succeeds.
pub mod Plain
use Prim.Native.Nat.{bit_xor}
use s6_projet_reseau.Common.{
  ℕ, zero, suc, ◌+◌, ◌/◌, ◌%◌, ◌^◌, Bool, true, false, Option, none, some, List, [], ◌∷◌, ltb, ◌==◌,
  if◌then◌else◌,
}
use s6_projet_reseau.Common.Run.{Run, ok, fault, ◌>>=◌}
use s6_projet_reseau.Wire.Types.{
  CharPtr, PadnBody, HelloBody, NeighbourBody, DataBody, AckBody, GoAwayBody, WarningBody, Body,
  Tlv, Msg, msg_magic, msg_version,
}
use s6_projet_reseau.Wire.TlvType

unfoldable pub new_padn_body : ℕ → PadnBody
new_padn_body n = record { zeroes = n }

unfoldable pub new_hello_body : Bool → ℕ → ℕ → HelloBody
new_hello_body is_long src_id dst_id = record {
  is_long = is_long;
  source_id = src_id;
  dest_id = if is_long then dst_id else 0;
}

-- `for (int i = 0; i < n; i++) b->ip[i] = *(ip + i)`
unfoldable pub copy_bytes : ℕ → List ℕ → Run (List ℕ)
copy_bytes zero ip = ok []
copy_bytes (suc n) [] = fault
copy_bytes (suc n) (x ∷ ip) = do rest ← copy_bytes n ip; ok (x ∷ rest)

unfoldable pub new_neighbour_body : List ℕ → ℕ → Run NeighbourBody
unfolding copy_bytes
new_neighbour_body ip port = do copy ← copy_bytes 16 ip; ok (record { ip = copy; port = port })

unfoldable pub new_data_body : ℕ → ℕ → ℕ → CharPtr → ℕ → DataBody
new_data_body sender_id nonce type content data_len = record {
  sender_id = sender_id;
  nonce = nonce;
  type = type;
  data_len = data_len;
  content = content;
}

unfoldable pub new_ack_body : ℕ → ℕ → AckBody
new_ack_body sender_id nonce = record { sender_id = sender_id; nonce = nonce }

-- The message is assigned only if it is not empty.
unfoldable pub new_go_away_body : ℕ → CharPtr → ℕ → GoAwayBody
new_go_away_body code m msg_len = record {
  code = code;
  has_message = ltb 0 msg_len;
  message = if ltb 0 msg_len then some m else none;
}

unfoldable pub new_warning_body : CharPtr → ℕ → WarningBody
new_warning_body msg msg_len = record { msg_len = msg_len; message = msg }

unfoldable pub new_tlv_pad1 : Tlv
new_tlv_pad1 = record { type = TlvType.pad1; length = 0; body = Body.unset }

unfoldable pub new_tlv_padn : ℕ → Tlv
unfolding new_padn_body
new_tlv_padn n = record {
  type = TlvType.padn;
  length = n % 256;
  body = Body.padn (new_padn_body n);
}

unfoldable pub new_tlv_hello : Bool → ℕ → ℕ → Tlv
unfolding new_hello_body
new_tlv_hello is_long source_id dest_id = record {
  type = TlvType.hello;
  length = 8 + (if is_long then 8 else 0);
  body = Body.hello (new_hello_body is_long source_id dest_id);
}

unfoldable pub new_tlv_neighbour : List ℕ → ℕ → Run Tlv
unfolding new_neighbour_body
new_tlv_neighbour ip port = do
  b ← new_neighbour_body ip port
  ok (record { type = TlvType.neighbour; length = 8 + 2; body = Body.neighbour b })

-- `time` is what time(&s) stores. A division by zero is undefined.
unfoldable pub new_nonce : ℕ → ℕ → Run ℕ
new_nonce time id = if id % 2 ^ 32 == 0 then fault else ok (bit_xor time 2 / (id % 2 ^ 32) % 2 ^ 32)

unfoldable pub new_tlv_data : ℕ → ℕ → ℕ → CharPtr → ℕ → Run Tlv
unfolding new_nonce new_data_body
new_tlv_data time sender_id type content data_len = do
  nonce ← new_nonce time sender_id
  ok (record {
    type = TlvType.content;
    length = (data_len + 8 + 4 + 1) % 256;
    body = Body.content (new_data_body sender_id nonce type content data_len);
  })

unfoldable pub new_tlv_data_b : DataBody → Tlv
new_tlv_data_b body = record {
  type = TlvType.content;
  length = (body.data_len + 8 + 4 + 1) % 256;
  body = Body.content body;
}

unfoldable pub new_tlv_ack : ℕ → ℕ → Tlv
unfolding new_ack_body
new_tlv_ack sender_id nonce = record {
  type = TlvType.ack;
  length = 8 + 4;
  body = Body.ack (new_ack_body sender_id nonce);
}

unfoldable pub new_tlv_go_away : ℕ → CharPtr → ℕ → Tlv
unfolding new_go_away_body
new_tlv_go_away code message message_len = record {
  type = TlvType.go_away;
  length = 1;
  body = Body.go_away (new_go_away_body code message message_len);
}

unfoldable pub new_tlv_warning : CharPtr → ℕ → Tlv
unfolding new_warning_body
new_tlv_warning message message_len = record {
  type = TlvType.warning;
  length = message_len % 256;
  body = Body.warning (new_warning_body message message_len);
}

-- The loop of new_msg over the `n` TLVs that are left; the length is a uint16_t.
unfoldable pub sum_lengths : ℕ → List Tlv → ℕ → Run ℕ
sum_lengths zero ts acc = ok acc
sum_lengths (suc n) [] acc = fault
sum_lengths (suc n) (t ∷ ts) acc = sum_lengths n ts ((acc + (2 + t.length)) % 2 ^ 16)

unfoldable pub new_msg : List Tlv → ℕ → Run Msg
unfolding sum_lengths
new_msg ts ts_size = do
  length ← sum_lengths ts_size ts 0
  ok (record {
    magic = msg_magic;
    version = msg_version;
    length = length;
    tlv_nb = ts_size;
    body = ts;
  })
