-- ===== src/Wire/Serial/Format.antt =====
-- The wire format by itself, for the TLVs that hold no string.
use s6_projet_reseau.Common.{
  ℕ, ◌<◌, ◌^◌, ◌≡◌, false, none, List, [], ◌∷◌, ◌++◌, length, replicate, be_bytes, All,
  if◌then◌else◌,
}
use s6_projet_reseau.Wire.Types.{Body, Tlv, Msg}
use s6_projet_reseau.Wire.TlvType

-- A TLV of a type that holds no string, with the length of its body and values of their width.
abbrev pub IsPlainBody : ℕ → ℕ → Body → Type 0
IsPlainBody type len Body.null = (type ≡ TlvType.pad1) × (len ≡ 0)
IsPlainBody type len Body.unset = (type ≡ TlvType.pad1) × (len ≡ 0)
IsPlainBody type len (Body.padn e) = (type ≡ TlvType.padn) × (len ≡ e.zeroes) × (e.zeroes < 256)
IsPlainBody type len (Body.hello e) =
    (type ≡ TlvType.hello)
    × (len ≡ (if e.is_long then 16 else 8))
    × (e.source_id < 2 ^ 64)
    × (e.dest_id < 2 ^ 64)
    × (e.dest_id ≡ (if e.is_long then e.dest_id else 0))
IsPlainBody type len (Body.ack e) =
    (type ≡ TlvType.ack) × (len ≡ 12) × (e.sender_id < 2 ^ 64) × (e.nonce < 2 ^ 32)
IsPlainBody type len (Body.go_away e) =
    (type ≡ TlvType.go_away)
    × (len ≡ 1)
    × (e.code < 256)
    × (e.has_message ≡ false)
    × (e.message ≡ none)
IsPlainBody type len body = ⊥

abbrev pub IsPlain : Tlv → Type 0
IsPlain t = IsPlainBody t.type t.length t.body

-- The bytes of a body.
abbrev pub body_bytes : Body → List ℕ
body_bytes (Body.padn e) = replicate e.zeroes 0
body_bytes (Body.hello e) =
    be_bytes 8 e.source_id ++ (if e.is_long then be_bytes 8 e.dest_id else [])
body_bytes (Body.ack e) = be_bytes 8 e.sender_id ++ be_bytes 4 e.nonce
body_bytes (Body.go_away e) = e.code ∷ []
body_bytes body = []

-- A TLV is its type, its length and its body.
unfoldable pub tlv_bytes : Tlv → List ℕ
tlv_bytes t = (t.type ∷ []) ++ ((t.length ∷ []) ++ body_bytes t.body)

unfoldable pub tlvs_bytes : List Tlv → List ℕ
tlvs_bytes [] = []
tlvs_bytes (t ∷ ts) = tlv_bytes t ++ tlvs_bytes ts

-- A message with TLVs whose number it states, and with values of their width.
pub record IsPlainMsg (msg : Msg) : Type 0 where
  pub magic : msg.magic < 256
  pub version : msg.version < 256
  pub length_fits : msg.length < 2 ^ 16
  pub count : msg.tlv_nb ≡ length msg.body
  pub plain : All IsPlain msg.body

-- A message is its magic number, its version, its length and its TLVs.
unfoldable pub msg_bytes : Msg → List ℕ
msg_bytes msg =
    (msg.magic ∷ []) ++ ((msg.version ∷ []) ++ (be_bytes 2 msg.length ++ tlvs_bytes msg.body))

-- What the receiver of a TLV holds: the body of a Pad1, which was never assigned, is null there.
abbrev pub received_body : Body → Body
received_body Body.unset = Body.null
received_body body = body

abbrev pub received_tlv : Tlv → Tlv
received_tlv t = record t { body = received_body t.body }

unfoldable pub received : List Tlv → List Tlv
received [] = []
received (t ∷ ts) = received_tlv t ∷ received ts
