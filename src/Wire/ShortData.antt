-- ===== src/Wire/ShortData.antt =====
-- Datagrams with a Data TLV that is shorter than its header.
use s6_projet_reseau.Common.{
  ℕ, zero, suc, ◌+◌, ◌<◌, lt→ltb, ◌^◌, ◌≡◌, refl, arith, List, [], ◌∷◌, ◌++◌, be_bytes,
}
use s6_projet_reseau.Common.Run.{fault, Returns-fault, fault-bind}
use s6_projet_reseau.Wire.Machine.{Machine}
use s6_projet_reseau.Wire.TlvType
use s6_projet_reseau.Wire.Sbuff.{Sbuff, new_dsbuff}
use s6_projet_reseau.Wire.Dserial.{dserial_tlv, dserial_body, dserial_tlvs, dserial_msg}
use s6_projet_reseau.Wire.Dserial.Parse.{ahead, dserial_char-Gives, dserial_short-Gives}
use s6_projet_reseau.Wire.Dserial.Overread.{dserial_data_body-fault}
use s6_projet_reseau.Wire.RoundTrip.{receive}

module _ (m : Machine) where
  -- The switch on a Data TLV.
  dserial_body-fault :
      (type len : ℕ) (b : Sbuff)
      → type ≡ TlvType.content
      → len < 13
      → dserial_body m type len b ≡ fault
  unfolding dserial_body
  dserial_body-fault type len b e short =
      rw e (fault-bind _ (dserial_data_body-fault m len b short))

  dserial_tlv-fault :
      (len : ℕ) (b : Sbuff) (rest : List ℕ)
      → len < 13
      → ahead b ≡ TlvType.content ∷ len ∷ rest
      → dserial_tlv m b ≡ fault
  unfolding dserial_tlv
  dserial_tlv-fault len b rest short h =
      Returns-fault _ (dserial_char-Gives m TlvType.content b (len ∷ rest) h) λ (type, c) (e, t).
        Returns-fault _ (dserial_char-Gives m len c rest t.left)
          λ (n, d) (e', t'). fault-bind _ (dserial_body-fault type n d e (omega arith))

  dserial_tlvs-fault :
      (fuel i len : ℕ) (b : Sbuff) (rest : List ℕ)
      → 0 < fuel
      → b.next < b.real_size
      → len < 13
      → ahead b ≡ TlvType.content ∷ len ∷ rest
      → dserial_tlvs m fuel i b ≡ fault
  unfolding dserial_tlvs
  dserial_tlvs-fault zero i len b rest pos more short h = absurd (omega arith)
  dserial_tlvs-fault (suc fuel) i len b rest pos more short h =
      rw (lt→ltb _ _ more) (fault-bind _ (dserial_tlv-fault len b rest short h))

-- A datagram whose header is followed by a Data TLV of a length below 13 makes the receiver
-- fault, whatever the rest of the datagram is: the length of the data wraps, and malloc returns null for
-- it, which is written to.
pub receive-fault :
    (m : Machine) (msg_length len : ℕ) (rest stale : List ℕ)
    → msg_length < 2 ^ 16
    → len < 13
    → receive m ((93 ∷ 2 ∷ []) ++ (be_bytes 2 msg_length ++ (TlvType.content ∷ len ∷ rest))) stale
      ≡ fault
unfolding receive dserial_msg new_dsbuff
receive-fault m msg_length len rest stale l short =
    Returns-fault _ (dserial_char-Gives m 93 _ _ refl) λ (magic, b) (_, t).
      Returns-fault _ (dserial_char-Gives m 2 b _ t.left) λ (version, c) (_, u).
        Returns-fault _ (dserial_short-Gives m msg_length c _ l u.left) λ (n, d) (_, v).
          fault-bind _ (
            dserial_tlvs-fault m (d.real_size + 1) 0 len d (rest ++ stale) (omega arith)
              (omega (arith, t.moved, u.moved, v.moved, t.same, u.same, v.same)) short v.left)
