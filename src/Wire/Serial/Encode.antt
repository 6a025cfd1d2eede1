-- ===== src/Wire/Serial/Encode.antt =====
-- The writers of TLVs and messages that hold no string write their wire format.
use s6_projet_reseau.Common.{
  ℕ, ◌<◌, ◌≡◌, arith, true, false, List, [], ◌∷◌, length, All, be_bytes, if◌then◌else◌, Bool,
}
use s6_projet_reseau.Common.Run.{Run, Returns}
use s6_projet_reseau.Wire.Machine.{Machine}
use s6_projet_reseau.Wire.Types.{Body, Tlv, Msg}
use s6_projet_reseau.Wire.Sbuff.{Sbuff, IsSbuff}
use s6_projet_reseau.Wire.Sbuff.Append.{Appends, Appends-bind, Appends-nil}
use s6_projet_reseau.Wire.Serial.{
  serial_hello_body, serial_ack_body, serial_padn_body, serial_go_away_body, serial_body,
  serial_tlv, serial_tlvs, serial_msg, serial_long,
}
use s6_projet_reseau.Wire.Serial.Format.{
  IsPlainBody, IsPlain, IsPlainMsg, body_bytes, tlv_bytes, tlvs_bytes, msg_bytes,
}
use s6_projet_reseau.Wire.Serial.Scalars.{
  serial_byte-Appends, serial_short-Appends, serial_int-Appends, serial_long-Appends,
  serial_zeroes-Appends,
}

module _ (m : Machine) where
  serial_dest-Appends :
      (is_long : Bool) (d : ℕ) (b : Sbuff)
      → IsSbuff b
      → Returns
          (Appends b (if is_long then be_bytes 8 d else []))
          (if is_long then serial_long m d b else Run.ok b)
  serial_dest-Appends true d b v = serial_long-Appends m d b v
  serial_dest-Appends false d b v = Appends-nil b v

  no_message-Appends :
      (has_message : Bool) (text : Run Sbuff) (b : Sbuff)
      → has_message ≡ false
      → IsSbuff b
      → Returns (Appends b []) (if has_message then text else Run.ok b)
  no_message-Appends true text b h v = cc
  no_message-Appends false text b h v = Appends-nil b v

  -- The switch of serial_tlv on a TLV that holds no string.
  serial_body-Appends :
      (type len : ℕ) (body : Body) (b : Sbuff)
      → IsPlainBody type len body
      → IsSbuff b
      → Returns (Appends b (body_bytes body)) (serial_body m type body b)
  unfolding serial_body serial_padn_body serial_hello_body serial_ack_body serial_go_away_body
  serial_body-Appends type len Body.null b p v = rw p.0 (Appends-nil b v)
  serial_body-Appends type len Body.unset b p v = rw p.0 (Appends-nil b v)
  serial_body-Appends type len (Body.padn e) b p v = rw p.0 (serial_zeroes-Appends m e.zeroes b v)
  serial_body-Appends type len (Body.hello e) b p v = rw p.0 (
      Appends-bind (serial_long-Appends m e.source_id b v)
        λ c w. serial_dest-Appends e.is_long e.dest_id c w)
  serial_body-Appends type len (Body.ack e) b p v =
      rw p.0 (
        Appends-bind (serial_long-Appends m e.sender_id b v)
          λ c w. serial_int-Appends m e.nonce c w)
  serial_body-Appends type len (Body.go_away e) b p v = rw p.0 (
      Appends-bind (serial_byte-Appends m e.code b p.2 v)
        λ c w. no_message-Appends e.has_message _ c p.3 w)
  serial_body-Appends type len (Body.neighbour e) b p v = absurd p
  serial_body-Appends type len (Body.content e) b p v = absurd p
  serial_body-Appends type len (Body.warning e) b p v = absurd p

  IsPlain-bytes : (t : Tlv) → IsPlain t → (t.type < 256) × (t.length < 256)
  IsPlain-bytes t p = go t.body p
    where
      go : (body : Body) → IsPlainBody t.type t.length body → (t.type < 256) × (t.length < 256)
      go Body.null q = omega arith
      go Body.unset q = omega arith
      go (Body.padn e) q = omega arith
      go (Body.hello e) q = ground arith
      go (Body.ack e) q = omega arith
      go (Body.go_away e) q = omega arith
      go (Body.neighbour e) q = absurd q
      go (Body.content e) q = absurd q
      go (Body.warning e) q = absurd q

  pub serial_tlv-Appends :
      (t : Tlv) (b : Sbuff)
      → IsPlain t
      → IsSbuff b
      → Returns (Appends b (tlv_bytes t)) (serial_tlv m t b)
  unfolding serial_tlv tlv_bytes
  serial_tlv-Appends t b p v =
      let (type_fits, length_fits) = IsPlain-bytes t p in
      Appends-bind (serial_byte-Appends m t.type b type_fits v) λ c w.
        Appends-bind (serial_byte-Appends m t.length c length_fits w)
          λ d z. serial_body-Appends t.type t.length t.body d p z

  serial_tlvs-Appends :
      (ts : List Tlv) (b : Sbuff)
      → All IsPlain ts
      → IsSbuff b
      → Returns (Appends b (tlvs_bytes ts)) (serial_tlvs m (length ts) ts b)
  unfolding serial_tlvs tlvs_bytes
  serial_tlvs-Appends [] b p v = Appends-nil b v
  serial_tlvs-Appends (t ∷ ts) b p v =
      Appends-bind (serial_tlv-Appends t b p.0 v) λ c w. serial_tlvs-Appends ts c p.1 w

-- serial_msg of a message without strings returns, and appends exactly the wire format of the
-- message to what the buffer holds, whatever the byte order of the host and the capacity.
pub serial_msg-Appends :
    (m : Machine) (msg : Msg) (b : Sbuff)
    → IsPlainMsg msg
    → IsSbuff b
    → Returns (Appends b (msg_bytes msg)) (serial_msg m msg b)
unfolding serial_msg msg_bytes
serial_msg-Appends m msg b p v = Appends-bind (serial_byte-Appends m msg.magic b p.magic v) λ c w.
    Appends-bind (serial_byte-Appends m msg.version c p.version w) λ d x.
      Appends-bind (serial_short-Appends m msg.length d x)
        λ e y. rw p.count (serial_tlvs-Appends m msg.body e p.plain y)
