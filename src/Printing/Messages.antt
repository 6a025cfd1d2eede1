-- ===== src/Printing/Messages.antt =====
-- Which of the messages that come in print_msg prints.
use s6_projet_reseau.Common.{
  ℕ, zero, suc, ◌+◌, ◌%◌, ◌<◌, ◌≤◌, ◌^◌, ◌≡◌, refl, ap, ◌∙◌, arith, Bool, true, false, ◌&&◌, ◌||◌,
  List, some, [], ◌∷◌, ◌++◌, ◌==◌, length, All, ltb, lt→ltb, Bool-cases, inl, inr,
}
use s6_projet_reseau.Common.Text.{c_string, c_prefix}
use s6_projet_reseau.Common.Run
use s6_projet_reseau.Common.Run.{Run, ok, fault, stuck, blocked, Returns, ◌>>=◌}
use s6_projet_reseau.Wire.Machine.{Machine}
use s6_projet_reseau.Wire.Types.{Body}
use s6_projet_reseau.Wire.Sbuff.{new_dsbuff}
use s6_projet_reseau.Wire.Serial.Format.{IsPlainBody, received_body}
use s6_projet_reseau.Wire.Dserial.{dserial_msg}
use s6_projet_reseau.Wire.Dserial.Content.{content_body}
use s6_projet_reseau.Wire.Dserial.Meant.{
  Meant, IsMeant, text_at, meant_bytes, tlv_at, tlvs_at, datagram_bytes,
}
use s6_projet_reseau.Wire.Dserial.Restored.{dserial_msg-meant}
use s6_projet_reseau.Printing.{
  Printf, print_neighbour_body, print_data, print_go_away, print_warning, print_body, print_tlv,
  print_tlvs, print_msg, with_precision, not_recognized,
}

abbrev pub is_ok : {A : Type 0} → Run A → Bool
is_ok (ok a) = true
is_ok _ = false

pub is_ok-map : {A B : Type 0} (r : Run A) (f : A → B) → is_ok (r >>= λ a. ok (f a)) ≡ is_ok r
is_ok-map (ok a) f = refl
is_ok-map fault f = refl
is_ok-map stuck f = refl
is_ok-map blocked f = refl

pub is_ok-both :
    {A B C : Type 0} (r : Run A) (q : Run B) (f : A → B → C)
    → is_ok (r >>= λ a. q >>= λ b. ok (f a b)) ≡ (is_ok r && is_ok q)
is_ok-both (ok a) q f = is_ok-map q (f a)
is_ok-both fault q f = refl
is_ok-both stuck q f = refl
is_ok-both blocked q f = refl

abbrev pub has_zero : List ℕ → Bool
has_zero [] = false
has_zero (c ∷ cs) = (c == 0) || has_zero cs

is_ok-c_string : (cs : List ℕ) → is_ok (c_string cs) ≡ has_zero cs
unfolding c_string
is_ok-c_string [] = refl
is_ok-c_string (c ∷ cs) = elim (Bool-cases (c == 0)) [
  | inl e ↦ rw e refl
  | inr e ↦ rw e (is_ok-map (c_string cs) _ ∙ is_ok-c_string cs)
]

is_ok-c_prefix : (n : ℕ) (cs : List ℕ) → n ≤ length cs → is_ok (c_prefix n cs) ≡ true
unfolding c_prefix
is_ok-c_prefix zero cs le = refl
is_ok-c_prefix (suc n) [] le = absurd (omega arith)
is_ok-c_prefix (suc n) (c ∷ cs) le = elim (Bool-cases (c == 0)) [
  | inl e ↦ rw e refl
  | inr e ↦ rw e (is_ok-map (c_prefix n cs) _ ∙ is_ok-c_prefix n cs (omega arith))
]

precise : (text : List ℕ) → length text < 256 → is_ok (with_precision (length text) text) ≡ true
precise text short =
    let same : length text % 2 ^ 32 ≡ length text = omega arith in
    let positive : ltb (length text) (2 ^ 31) ≡ true = lt→ltb _ _ (omega arith) in
    rw (same, positive) (is_ok-c_prefix (length text) text (omega arith))

-- The text of a go away or of a warning is printed up to a zero, and one without a text has no string.
abbrev pub is_printable_body : Body → Bool
is_printable_body (Body.go_away e) = false
is_printable_body _ = true

abbrev pub is_printable : Meant → Bool
is_printable (Meant.simple t) = is_printable_body t.body
is_printable (Meant.neighbour ip port) = true
is_printable (Meant.content sender_id nonce type text) = true
is_printable (Meant.go_away code text) = has_zero text
is_printable (Meant.warning text) = has_zero text

abbrev pub are_printable : List Meant → Bool
are_printable [] = true
are_printable (x ∷ xs) = is_printable x && are_printable xs

module _ (printf : Printf) where
  print_body-plain :
      (type len : ℕ) (body : Body)
      → IsPlainBody type len body
      → is_ok (print_body printf type (received_body body)) ≡ is_printable_body body
  unfolding print_body print_go_away
  print_body-plain type len Body.null p = rw p.0 refl
  print_body-plain type len Body.unset p = rw p.0 refl
  print_body-plain type len (Body.padn e) p = rw p.0 refl
  print_body-plain type len (Body.hello e) p = rw p.0 refl
  print_body-plain type len (Body.neighbour e) p = absurd p
  print_body-plain type len (Body.content e) p = absurd p
  print_body-plain type len (Body.ack e) p = rw p.0 refl
  print_body-plain type len (Body.go_away e) p = rw (p.0, p.4) refl
  print_body-plain type len (Body.warning e) p = absurd p

  module _ (m : Machine) where
    print_tlv-printable :
        (k : ℕ) (x : Meant) → IsMeant x → is_ok (print_tlv printf (tlv_at m k x)) ≡ is_printable x
    unfolding print_tlv print_body print_neighbour_body print_data print_go_away print_warning
    print_tlv-printable k (Meant.simple t) p =
        is_ok-map (print_body printf t.type (received_body t.body)) _
        ∙ print_body-plain t.type t.length t.body p
    print_tlv-printable k (Meant.neighbour ip port) p =
        is_ok-map (print_neighbour_body printf (record { ip = ip; port = port })) _
        ∙ is_ok-map (c_prefix 16 ip) _
        ∙ is_ok-c_prefix 16 ip (omega (arith, p.0))
    print_tlv-printable k (Meant.content sender_id nonce type text) p =
        is_ok-map (print_data printf (content_body m (k + 2) sender_id nonce type text)) _
        ∙ is_ok-map (with_precision (length text) text) _
        ∙ precise text (omega (arith, p.2))
    print_tlv-printable k (Meant.go_away code text) p =
        is_ok-map
          (print_go_away printf (record {
            code = code;
            has_message = true;
            message = some (text_at m (k + 2 + 1) text);
          }))
          _
        ∙ is_ok-map (c_string text) _
        ∙ is_ok-c_string text
    print_tlv-printable k (Meant.warning text) p =
        is_ok-map
          (print_warning printf (record { msg_len = length text; message = text_at m (k + 2) text })
            >>= λ t. ok (t ++ not_recognized printf))
          _
        ∙ is_ok-map
            (print_warning printf
              (record { msg_len = length text; message = text_at m (k + 2) text }))
            _
        ∙ is_ok-map (c_string text) _
        ∙ is_ok-c_string text

    print_tlvs-printable :
        (k : ℕ) (xs : List Meant)
        → All IsMeant xs
        → is_ok (print_tlvs printf (length xs) (tlvs_at m k xs)) ≡ are_printable xs
    unfolding print_tlvs tlvs_at
    print_tlvs-printable k [] p = refl
    print_tlvs-printable k (x ∷ xs) p =
        is_ok-both (print_tlv printf (tlv_at m k x))
          (print_tlvs printf (length xs) (tlvs_at m (k + length (meant_bytes x)) xs)) _
        ∙ rw (print_tlv-printable k x p.0) (
            ap (λ b. is_printable x && b)
              (print_tlvs-printable (k + length (meant_bytes x)) xs p.1))

    -- dserial_msg reads a datagram of this version in the wire format, of at most 64 TLVs, and print_msg
    -- prints what it read without a fault if and only if no TLV is a go away without a text, and each
    -- text of a go away or a warning has a zero in it.
    pub dserial_msg-print_msg :
        (len : ℕ) (xs : List Meant) (stale : List ℕ)
        → len < 2 ^ 16
        → All IsMeant xs
        → length xs ≤ 64
        → Returns
            (λ r. is_ok (print_msg printf r.0) ≡ are_printable xs)
            (dserial_msg m
              (new_dsbuff (datagram_bytes len xs ++ stale) (length (datagram_bytes len xs))))
    unfolding print_msg
    dserial_msg-print_msg len xs stale fits p few =
        Run.mono (dserial_msg-meant m len xs stale fits p few) λ r e. rw e (
          is_ok-map (print_tlvs printf (length xs) (tlvs_at m 4 xs)) _
          ∙ print_tlvs-printable 4 xs p)
