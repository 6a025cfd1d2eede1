-- ===== src/Wire/Make/Plain.antt =====
-- The constructors make TLVs whose type and length tell their bytes, and new_msg counts these.
use s6_projet_reseau.Common.{
  ℕ, ◌+◌, ◌%◌, ◌<◌, ◌^◌, ◌≡◌, refl, ap, ◌∙◌, arith, Bool, true, false, List, [], ◌∷◌, ◌++◌, length,
  length-append, length-replicate, All, be_bytes, if◌then◌else◌,
}
use s6_projet_reseau.Common.Run.{ok, Returns, returns}
use s6_projet_reseau.Wire.Types.{CharPtr, Body, Tlv}
use s6_projet_reseau.Wire.Make.{
  new_tlv_pad1, new_tlv_padn, new_tlv_hello, new_tlv_ack, new_tlv_go_away, sum_lengths, new_msg,
}
use s6_projet_reseau.Wire.Serial.Format.{
  IsPlainBody, IsPlain, IsPlainMsg, body_bytes, tlv_bytes, tlvs_bytes,
}

pub new_tlv_pad1-IsPlain : IsPlain new_tlv_pad1
unfolding new_tlv_pad1
new_tlv_pad1-IsPlain = (refl, refl)

pub new_tlv_padn-IsPlain : (n : ℕ) → n < 256 → IsPlain (new_tlv_padn n)
unfolding new_tlv_padn
new_tlv_padn-IsPlain n h = (refl, omega arith, h)

pub new_tlv_hello-IsPlain :
    (is_long : Bool) (source_id dest_id : ℕ)
    → source_id < 2 ^ 64
    → dest_id < 2 ^ 64
    → IsPlain (new_tlv_hello is_long source_id dest_id)
unfolding new_tlv_hello
new_tlv_hello-IsPlain true source_id dest_id s d = (refl, refl, s, d, refl)
new_tlv_hello-IsPlain false source_id dest_id s d = (refl, refl, s, omega arith, refl)

pub new_tlv_ack-IsPlain :
    (sender_id nonce : ℕ)
    → sender_id < 2 ^ 64
    → nonce < 2 ^ 32
    → IsPlain (new_tlv_ack sender_id nonce)
unfolding new_tlv_ack
new_tlv_ack-IsPlain sender_id nonce s n = (refl, refl, s, n)

pub new_tlv_go_away-IsPlain :
    (code : ℕ) (message : CharPtr) → code < 256 → IsPlain (new_tlv_go_away code message 0)
unfolding new_tlv_go_away
new_tlv_go_away-IsPlain code message h = (refl, refl, h, refl, refl)

hello_length :
    (l : Bool) (src dst : ℕ)
    → length (be_bytes 8 src ++ (if l then be_bytes 8 dst else [])) ≡ (if l then 16 else 8)
hello_length true src dst = refl
hello_length false src dst = refl

-- The length field of a TLV is the number of bytes of its body.
pub length-body_bytes : (t : Tlv) → IsPlain t → length (body_bytes t.body) ≡ t.length
length-body_bytes t p = go t.body p
  where
    go : (body : Body) → IsPlainBody t.type t.length body → length (body_bytes body) ≡ t.length
    go Body.null q = omega arith
    go Body.unset q = omega arith
    go (Body.padn e) q = omega (arith, length-replicate {A = ℕ} e.zeroes 0)
    go (Body.hello e) q = rw q.1 (hello_length e.is_long e.source_id e.dest_id)
    go (Body.ack e) q = omega arith
    go (Body.go_away e) q = omega arith
    go (Body.neighbour e) q = absurd q
    go (Body.content e) q = absurd q
    go (Body.warning e) q = absurd q

sum_lengths-bytes :
    (ts : List Tlv) (acc : ℕ)
    → All IsPlain ts
    → acc < 2 ^ 16
    → sum_lengths (length ts) ts acc ≡ ok ((acc + length (tlvs_bytes ts)) % 2 ^ 16)
unfolding sum_lengths tlvs_bytes tlv_bytes
sum_lengths-bytes [] acc p h = ap ok (omega arith)
sum_lengths-bytes (t ∷ ts) acc p h =
    sum_lengths-bytes ts ((acc + (2 + t.length)) % 2 ^ 16) p.1 (omega arith)
    ∙ ap ok (omega (arith, length-body_bytes t p.0, length-append (tlv_bytes t) (tlvs_bytes ts)))

-- new_msg of TLVs without strings makes a message that serial_msg can write, with these TLVs, and
-- with the number of their bytes as its length, modulo 2 ^ 16.
pub new_msg-IsPlainMsg :
    (ts : List Tlv)
    → All IsPlain ts
    → Returns
        (λ msg. IsPlainMsg msg × (msg.body ≡ ts) × (msg.length ≡ length (tlvs_bytes ts) % 2 ^ 16))
        (new_msg ts (length ts))
unfolding new_msg
new_msg-IsPlainMsg ts p = rw (sum_lengths-bytes ts 0 p (omega arith)) (
    returns (
      record {
        magic = omega arith;
        version = omega arith;
        length_fits = omega arith;
        count = refl;
        plain = p;
      },
      refl,
      omega arith,
    ))
