-- ===== src/Wire/Dserial/Meant.antt =====
-- Messages of any TLVs in the wire format of a peer that writes them right.
use s6_projet_reseau.Common.{
  ℕ, true, some, ◌+◌, ◌<◌, ◌^◌, ◌≡◌, List, [], ◌∷◌, ◌++◌, length, be_bytes,
}
use s6_projet_reseau.Wire.Machine.{Machine}
use s6_projet_reseau.Wire.TlvType
use s6_projet_reseau.Wire.Types.{CharPtr, Body, Tlv}
use s6_projet_reseau.Wire.Serial.Format.{IsPlain, tlv_bytes, received_tlv}
use s6_projet_reseau.Wire.Dserial.Content.{content_bytes, content_body}

-- A TLV as a peer means it: one that holds no string, or one of the four that may.
pub data Meant : Type 0 where
  simple : Tlv → Meant
  neighbour : List ℕ → ℕ → Meant
  content : ℕ → ℕ → ℕ → List ℕ → Meant
  go_away : ℕ → List ℕ → Meant
  warning : List ℕ → Meant

-- The values have their widths, an address has sixteen bytes, and a text fits the length of its TLV.
abbrev pub IsMeant : Meant → Type 0
IsMeant (simple t) = IsPlain t
IsMeant (neighbour ip port) = (length ip ≡ 16) × (port < 2 ^ 16)
IsMeant (content sender_id nonce type text) =
    (sender_id < 2 ^ 64) × (nonce < 2 ^ 32) × (length text + 13 < 256)
IsMeant (go_away code text) = (0 < length text) × (length text + 1 < 256)
IsMeant (warning text) = length text < 256

-- The type, the length and the body in the wire format.
unfoldable pub meant_bytes : Meant → List ℕ
meant_bytes (simple t) = tlv_bytes t
meant_bytes (neighbour ip port) = (TlvType.neighbour ∷ []) ++ ((18 ∷ []) ++ (ip ++ be_bytes 2 port))
meant_bytes (content sender_id nonce type text) =
    (TlvType.content ∷ []) ++ (((length text + 13) ∷ []) ++ content_bytes sender_id nonce type text)
meant_bytes (go_away code text) =
    (TlvType.go_away ∷ []) ++ (((length text + 1) ∷ []) ++ (code ∷ text))
meant_bytes (warning text) = (TlvType.warning ∷ []) ++ ((length text ∷ []) ++ text)

unfoldable pub all_bytes : List Meant → List ℕ
all_bytes [] = []
all_bytes (x ∷ xs) = meant_bytes x ++ all_bytes xs

module _ (m : Machine) where
  -- A text at an offset of the datagram.
  abbrev pub text_at : ℕ → List ℕ → CharPtr
  text_at k text = record { address = m.str_address k; bytes = text }

  -- What the receiver holds of a TLV that stands at the offset `k`.
  abbrev pub tlv_at : ℕ → Meant → Tlv
  tlv_at k (simple t) = received_tlv t
  tlv_at k (neighbour ip port) = record {
    type = TlvType.neighbour;
    length = 18;
    body = Body.neighbour (record { ip = ip; port = port });
  }
  tlv_at k (content sender_id nonce type text) = record {
    type = TlvType.content;
    length = length text + 13;
    body = Body.content (content_body m (k + 2) sender_id nonce type text);
  }
  tlv_at k (go_away code text) = record {
    type = TlvType.go_away;
    length = length text + 1;
    body =
        Body.go_away
          (record { code = code; has_message = true; message = some (text_at (k + 2 + 1) text) });
  }
  tlv_at k (warning text) = record {
    type = TlvType.warning;
    length = length text;
    body = Body.warning (record { msg_len = length text; message = text_at (k + 2) text });
  }

  unfoldable pub tlvs_at : ℕ → List Meant → List Tlv
  tlvs_at k [] = []
  tlvs_at k (x ∷ xs) = tlv_at k x ∷ tlvs_at (k + length (meant_bytes x)) xs

-- The header and the TLVs.
unfoldable pub datagram_bytes : ℕ → List Meant → List ℕ
datagram_bytes len xs = (93 ∷ []) ++ ((2 ∷ []) ++ (be_bytes 2 len ++ all_bytes xs))
