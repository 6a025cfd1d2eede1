-- ===== src/Wire/Dserial/Decode.antt =====
-- The readers of TLVs and messages take back what the wire format says.
use s6_projet_reseau.Common.{
  ℕ, zero, suc, ◌+◌, ◌<◌, ◌≤◌, ◌^◌, ◌≡◌, refl, sym, ap, ◌∙◌, arith, true, false, none, List, [],
  ◌∷◌, ◌++◌, append_assoc, length, length-append, All, be_bytes, if◌then◌else◌, Bool, lt→ltb,
  le→not_ltb, replicate, length-replicate,
}
use s6_projet_reseau.Common.Run
use s6_projet_reseau.Common.Run.{Run, ok, Returns, returns, ◌>>=◌}
use s6_projet_reseau.Wire.Machine.{Machine}
use s6_projet_reseau.Wire.Types.{null_ptr, AckBody, GoAwayBody, Body, Tlv, Msg}
use s6_projet_reseau.Wire.Make.{new_hello_body, new_ack_body, new_padn_body, new_go_away_body}
use s6_projet_reseau.Wire.Sbuff.{Sbuff}
use s6_projet_reseau.Wire.Serial.Format.{
  IsPlainBody, IsPlain, IsPlainMsg, body_bytes, tlv_bytes, tlvs_bytes, msg_bytes, received_body,
  received_tlv, received,
}
use s6_projet_reseau.Wire.Dserial.{
  dserial_dest, dserial_hello_body, dserial_ack_body, dserial_padn_body, dserial_go_away_body,
  dserial_body, dserial_tlv, dserial_tlvs, dserial_msg,
}
use s6_projet_reseau.Wire.Dserial.Parse.{
  ahead, Gives, Gives-step, Gives-bind, Gives-map, Gives-ok, dserial_char-Gives,
  dserial_short-Gives, dserial_int-Gives, dserial_long-Gives, dserial_chars-Gives,
}

module _ (m : Machine) where
  dserial_dest-Gives :
      (is_long : Bool) (d : ℕ) (b : Sbuff) (rest : List ℕ)
      → d < 2 ^ 64
      → ahead b ≡ (if is_long then be_bytes 8 d else []) ++ rest
      → Returns
          (Gives (if is_long then d else 0) b (if is_long then be_bytes 8 d else []) rest)
          (dserial_dest m is_long b)
  unfolding dserial_dest
  dserial_dest-Gives true d b rest fits h = dserial_long-Gives m d b rest fits h
  dserial_dest-Gives false d b rest fits h = Gives-ok 0 b rest h

  -- The flag, the source and the destination of a hello.
  dserial_hello-Gives :
      (l : Bool) (src dst : ℕ) (b : Sbuff) (rest : List ℕ)
      → src < 2 ^ 64
      → dst < 2 ^ 64
      → dst ≡ (if l then dst else 0)
      → ahead b ≡ (be_bytes 8 src ++ (if l then be_bytes 8 dst else [])) ++ rest
      → Returns
          (Gives
            (record { is_long = l; source_id = src; dest_id = dst })
            b
            (be_bytes 8 src ++ (if l then be_bytes 8 dst else []))
            rest)
          (dserial_hello_body m (if l then 16 else 8) b)
  unfolding dserial_hello_body new_hello_body
  dserial_hello-Gives true src dst b rest s d z h =
      Gives-bind _ (dserial_long-Gives m src b _ s h) λ c h'.
        Gives-map (λ dst. new_hello_body true src dst) (dserial_dest-Gives true dst c rest d h')
  dserial_hello-Gives false src dst b rest s d z h = rw z (
      Gives-bind _ (dserial_long-Gives m src b _ s h) λ c h'.
        Gives-map (λ dst. new_hello_body false src dst) (dserial_dest-Gives false dst c rest d h'))

  dserial_ack_body-Gives :
      (e : AckBody) (b : Sbuff) (rest : List ℕ)
      → e.sender_id < 2 ^ 64
      → e.nonce < 2 ^ 32
      → ahead b ≡ body_bytes (Body.ack e) ++ rest
      → Returns (Gives e b (body_bytes (Body.ack e)) rest) (dserial_ack_body m 12 b)
  unfolding dserial_ack_body new_ack_body
  dserial_ack_body-Gives e b rest s n h =
      Gives-bind _ (dserial_long-Gives m e.sender_id b _ s h) λ c h'.
        Gives-map (λ nonce. new_ack_body e.sender_id nonce)
          (dserial_int-Gives m e.nonce c rest n h')

  dserial_padn_body-Gives :
      (n : ℕ) (b : Sbuff) (rest : List ℕ)
      → ahead b ≡ replicate n 0 ++ rest
      → Returns (Gives (record { zeroes = n }) b (replicate n 0) rest) (dserial_padn_body m n b)
  unfolding dserial_padn_body new_padn_body
  dserial_padn_body-Gives n b rest h =
      Gives-map (λ _. new_padn_body n)
        (rw (length-replicate {A = ℕ} n 0) at (dserial_chars-Gives m (replicate n 0) b rest h))

  no_message_path :
      (e : GoAwayBody)
      → e.has_message ≡ false
      → e.message ≡ none
      → new_go_away_body e.code null_ptr 0 ≡ e
  unfolding new_go_away_body
  no_message_path e f n = ground arith

  dserial_go_away_body-Gives :
      (e : GoAwayBody) (b : Sbuff) (rest : List ℕ)
      → e.has_message ≡ false
      → e.message ≡ none
      → ahead b ≡ e.code ∷ rest
      → Returns (Gives e b (e.code ∷ []) rest) (dserial_go_away_body m 1 b)
  unfolding dserial_go_away_body new_go_away_body
  dserial_go_away_body-Gives e b rest f n h =
      Run.mono
        (Gives-map (λ c. new_go_away_body c null_ptr 0) (dserial_char-Gives m e.code b rest h))
        λ r (p, t). (p ∙ no_message_path e f n, t)

  -- The switch of dserial_tlv on the length and the bytes of a body that holds no string.
  dserial_body-Gives :
      (type len : ℕ) (body : Body) (b : Sbuff) (rest : List ℕ)
      → IsPlainBody type len body
      → ahead b ≡ body_bytes body ++ rest
      → Returns (Gives (received_body body) b (body_bytes body) rest) (dserial_body m type len b)
  unfolding dserial_body
  dserial_body-Gives type len Body.null b rest p h = rw p.0 (Gives-ok Body.null b rest h)
  dserial_body-Gives type len Body.unset b rest p h = rw p.0 (Gives-ok Body.null b rest h)
  dserial_body-Gives type len (Body.padn e) b rest p h =
      rw (p.0, p.1) (Gives-map Body.padn (dserial_padn_body-Gives e.zeroes b rest h))
  dserial_body-Gives type len (Body.hello e) b rest p h =
      rw (p.0, p.1)
        (Gives-map Body.hello
          (dserial_hello-Gives e.is_long e.source_id e.dest_id b rest p.2 p.3 p.4 h))
  dserial_body-Gives type len (Body.ack e) b rest p h =
      rw p.0 (Gives-map Body.ack (dserial_ack_body-Gives e b rest p.2 p.3 h))
  dserial_body-Gives type len (Body.go_away e) b rest p h =
      rw (p.0, p.1) (Gives-map Body.go_away (dserial_go_away_body-Gives e b rest p.3 p.4 h))
  dserial_body-Gives type len (Body.neighbour e) b rest p h = absurd p
  dserial_body-Gives type len (Body.content e) b rest p h = absurd p
  dserial_body-Gives type len (Body.warning e) b rest p h = absurd p

  pub dserial_tlv-Gives :
      (t : Tlv) (b : Sbuff) (rest : List ℕ)
      → IsPlain t
      → ahead b ≡ tlv_bytes t ++ rest
      → Returns (Gives (received_tlv t) b (tlv_bytes t) rest) (dserial_tlv m b)
  unfolding dserial_tlv tlv_bytes
  dserial_tlv-Gives t b rest p h = Gives-bind _ (dserial_char-Gives m t.type b _ h) λ c h'.
      Gives-bind _ (dserial_char-Gives m t.length c _ h') λ d h''.
        Gives-map (λ body. record { type = t.type; length = t.length; body = body })
          (dserial_body-Gives t.type t.length t.body d rest p h'')

  tlv_bytes-pos : (t : Tlv) → 2 ≤ length (tlv_bytes t)
  unfolding tlv_bytes
  tlv_bytes-pos t = omega arith

  -- The loop takes the TLVs that end where the data ends. Whatever lies behind is not read.
  dserial_tlvs-Gives :
      (fuel i : ℕ) (ts : List Tlv) (b : Sbuff) (rest : List ℕ)
      → All IsPlain ts
      → i + length ts ≤ 64
      → length (tlvs_bytes ts) < fuel
      → b.next + length (tlvs_bytes ts) ≡ b.real_size
      → ahead b ≡ tlvs_bytes ts ++ rest
      → Returns (Gives (received ts) b (tlvs_bytes ts) rest) (dserial_tlvs m fuel i b)
  unfolding dserial_tlvs tlvs_bytes received
  dserial_tlvs-Gives zero i ts b rest p few f e h = absurd (omega arith)
  dserial_tlvs-Gives (suc fuel) i [] b rest p few f e h =
      rw (le→not_ltb b.next b.real_size (omega arith)) (Gives-ok [] b rest h)
  dserial_tlvs-Gives (suc fuel) i (t ∷ ts) b rest p few f e h =
      let parts = length-append (tlv_bytes t) (tlvs_bytes ts) in
      rw
        (
          lt→ltb b.next b.real_size (omega (arith, parts, tlv_bytes-pos t)),
          lt→ltb i 64 (omega arith),
        )
        (Gives-step _
          (dserial_tlv-Gives t b (tlvs_bytes ts ++ rest) p.0
            (h ∙ append_assoc (tlv_bytes t) (tlvs_bytes ts) rest))
          λ c k.
            Gives-map (λ us. received_tlv t ∷ us)
              (dserial_tlvs-Gives fuel (i + 1) ts c rest p.1 (omega arith)
                (omega (arith, parts, tlv_bytes-pos t)) (omega (arith, parts, k.moved, k.same))
                k.left))

length-received : (ts : List Tlv) → length (received ts) ≡ length ts
unfolding received
length-received [] = refl
length-received (t ∷ ts) = ap suc (length-received ts)

received_path :
    (msg : Msg)
    → msg.tlv_nb ≡ length msg.body
    → record msg { tlv_nb = length (received msg.body); body = received msg.body }
      ≡ record msg { body = received msg.body }
received_path msg count =
    ap (λ n. record msg { tlv_nb = n; body = received msg.body })
      (length-received msg.body ∙ sym count)

-- dserial_msg on a buffer whose data is the wire format of a message without strings, of at most
-- 64 TLVs, whatever lies behind the data: it returns the message, with the bodies of the Pad1 null.
pub dserial_msg-Gives :
    (m : Machine) (msg : Msg) (b : Sbuff) (rest : List ℕ)
    → IsPlainMsg msg
    → length msg.body ≤ 64
    → b.next + length (msg_bytes msg) ≡ b.real_size
    → ahead b ≡ msg_bytes msg ++ rest
    → Returns
        (Gives (record msg { body = received msg.body }) b (msg_bytes msg) rest)
        (dserial_msg m b)
unfolding dserial_msg msg_bytes
dserial_msg-Gives m msg b rest p few e h =
    Gives-step _ (dserial_char-Gives m msg.magic b _ h) λ c t.
      Gives-step _ (dserial_char-Gives m msg.version c _ t.left) λ d u.
        Gives-step _ (dserial_short-Gives m msg.length d _ p.length_fits u.left) λ f v.
          Run.mono
            (Gives-map (λ body. record msg { tlv_nb = length body; body = body })
              (dserial_tlvs-Gives m (f.real_size + 1) 0 msg.body f rest p.plain (omega arith)
                (omega (arith, e, total, t.same, u.same, v.same))
                (omega (arith, e, total, t.moved, u.moved, v.moved, t.same, u.same, v.same))
                v.left))
            λ r (q, w). (q ∙ received_path msg p.count, w)
  where
    total : length (msg_bytes msg) ≡ 4 + length (tlvs_bytes msg.body)
    total = omega arith
