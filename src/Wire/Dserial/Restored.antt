-- ===== src/Wire/Dserial/Restored.antt =====
-- dserial_msg reads each value of Dserial/Meant back.
use s6_projet_reseau.Common.{
  ℕ, zero, suc, true, some, ◌+◌, ◌<◌, ◌≤◌, ◌^◌, ◌≡◌, refl, ap, ◌∙◌, arith, List, [], ◌∷◌, ◌++◌,
  append_assoc, length, length-append, All, be_bytes, lt→ltb, le→not_ltb,
}
use s6_projet_reseau.Common.Run
use s6_projet_reseau.Common.Run.{Run, ok, Returns, returns, ◌>>=◌}
use s6_projet_reseau.Wire.Machine.{Machine}
use s6_projet_reseau.Wire.TlvType
use s6_projet_reseau.Wire.Types.{Body}
use s6_projet_reseau.Wire.Sbuff.{Sbuff, new_dsbuff}
use s6_projet_reseau.Wire.Dserial.{dserial_body, dserial_tlv, dserial_tlvs, dserial_msg}
use s6_projet_reseau.Wire.Serial.Format.{tlv_bytes}
use s6_projet_reseau.Wire.Dserial.Decode.{dserial_tlv-Gives}
use s6_projet_reseau.Wire.Dserial.Parse.{
  ahead, Gives, Gives-step, Gives-map, Gives-ok, dserial_char-Gives, dserial_short-Gives,
}
use s6_projet_reseau.Wire.Dserial.Content.{
  content_bytes, content_body, dserial_data_body-Gives, dserial_neighbour_body-Gives,
  dserial_warning_body-Gives, dserial_go_away_message-Gives,
}
use s6_projet_reseau.Wire.Dserial.Meant.{
  simple, neighbour, content, go_away, warning, Meant, IsMeant, meant_bytes, all_bytes, text_at,
  tlv_at, tlvs_at, datagram_bytes,
}

module _ (m : Machine) where
  -- A TLV from its type, its length and what the switch gives for the body.
  tlv_from_body :
      (type len : ℕ) (bytes : List ℕ) (body : ℕ → Body) (b : Sbuff) (rest : List ℕ)
      → ((c : Sbuff)
          → ahead c ≡ bytes ++ rest
          → Returns (Gives (body c.next) c bytes rest) (dserial_body m type len c))
      → ahead b ≡ ((type ∷ []) ++ ((len ∷ []) ++ bytes)) ++ rest
      → Returns
          (Gives
            (record { type = type; length = len; body = body (b.next + 2) })
            b
            ((type ∷ []) ++ ((len ∷ []) ++ bytes))
            rest)
          (dserial_tlv m b)
  unfolding dserial_tlv
  tlv_from_body type len bytes body b rest read h =
      Gives-step {xs = type ∷ []} {ys = (len ∷ []) ++ bytes} _ (dserial_char-Gives m type b _ h)
        λ c t.
          Gives-step {xs = len ∷ []} {ys = bytes} _ (dserial_char-Gives m len c _ t.left) λ d u.
            let place : d.next ≡ b.next + 2 = omega (arith, t.moved, u.moved) in
            Run.mono
              (Gives-map (λ body. record { type = type; length = len; body = body })
                (read d u.left))
              λ r (p, w).
                (p ∙ ap (λ k. record { type = type; length = len; body = body k }) place, w)

  dserial_tlv_at :
      (x : Meant) (b : Sbuff) (rest : List ℕ)
      → IsMeant x
      → ahead b ≡ meant_bytes x ++ rest
      → Returns (Gives (tlv_at m b.next x) b (meant_bytes x) rest) (dserial_tlv m b)
  unfolding meant_bytes dserial_body
  dserial_tlv_at (simple t) b rest p h = dserial_tlv-Gives m t b rest p h
  dserial_tlv_at (neighbour ip port) b rest p h =
      tlv_from_body TlvType.neighbour 18 (ip ++ be_bytes 2 port)
        (λ k. Body.neighbour (record { ip = ip; port = port })) b rest
        (λ c k. Gives-map Body.neighbour (dserial_neighbour_body-Gives m ip port c rest p.0 p.1 k))
        h
  dserial_tlv_at (content sender_id nonce type text) b rest p h =
      tlv_from_body TlvType.content (length text + 13) (content_bytes sender_id nonce type text)
        (λ k. Body.content (content_body m k sender_id nonce type text)) b rest
        (λ c k.
          Gives-map Body.content
            (dserial_data_body-Gives m sender_id nonce type text c rest p.0 p.1 p.2 k))
        h
  dserial_tlv_at (go_away code text) b rest p h =
      tlv_from_body TlvType.go_away (length text + 1) (code ∷ text)
        (λ k.
          Body.go_away
            (record { code = code; has_message = true; message = some (text_at m (k + 1) text) }))
        b rest
        (λ c k.
          Gives-map Body.go_away
            (dserial_go_away_message-Gives m code text c rest p.0 (omega (arith, p.1)) k))
        h
  dserial_tlv_at (warning text) b rest p h =
      tlv_from_body TlvType.warning (length text) text
        (λ k. Body.warning (record { msg_len = length text; message = text_at m k text })) b rest
        (λ c k. Gives-map Body.warning (dserial_warning_body-Gives m text c rest p k)) h

  tlv_length : (x : Meant) → 2 ≤ length (meant_bytes x)
  unfolding meant_bytes tlv_bytes
  tlv_length (simple t) = omega arith
  tlv_length (neighbour ip port) = omega arith
  tlv_length (content sender_id nonce type text) = omega arith
  tlv_length (go_away code text) = omega arith
  tlv_length (warning text) = omega arith

  dserial_tlvs_at :
      (fuel i : ℕ) (xs : List Meant) (b : Sbuff) (rest : List ℕ)
      → All IsMeant xs
      → i + length xs ≤ 64
      → length (all_bytes xs) < fuel
      → b.next + length (all_bytes xs) ≡ b.real_size
      → ahead b ≡ all_bytes xs ++ rest
      → Returns (Gives (tlvs_at m b.next xs) b (all_bytes xs) rest) (dserial_tlvs m fuel i b)
  unfolding dserial_tlvs all_bytes tlvs_at
  dserial_tlvs_at zero i xs b rest p few f e h = absurd (omega arith)
  dserial_tlvs_at (suc fuel) i [] b rest p few f e h =
      rw (le→not_ltb b.next b.real_size (omega arith)) (Gives-ok [] b rest h)
  dserial_tlvs_at (suc fuel) i (x ∷ xs) b rest p few f e h =
      let parts = length-append (meant_bytes x) (all_bytes xs) in
      rw (lt→ltb b.next b.real_size (omega (arith, parts, tlv_length x)), lt→ltb i 64 (omega arith))
        (Gives-step _
          (dserial_tlv_at x b (all_bytes xs ++ rest) p.0
            (h ∙ append_assoc (meant_bytes x) (all_bytes xs) rest))
          λ c k.
            Run.mono
              (Gives-map (λ us. tlv_at m b.next x ∷ us)
                (dserial_tlvs_at fuel (i + 1) xs c rest p.1 (omega arith)
                  (omega (arith, parts, tlv_length x)) (omega (arith, parts, k.moved, k.same))
                  k.left))
              λ r (q, w). (q ∙ ap (λ n. tlv_at m b.next x ∷ tlvs_at m n xs) k.moved, w))

  length-tlvs_at : (k : ℕ) (xs : List Meant) → length (tlvs_at m k xs) ≡ length xs
  unfolding tlvs_at
  length-tlvs_at k [] = refl
  length-tlvs_at k (x ∷ xs) = ap suc (length-tlvs_at (k + length (meant_bytes x)) xs)

-- dserial_msg on a datagram of this version.
pub dserial_msg-meant :
    (m : Machine) (len : ℕ) (xs : List Meant) (stale : List ℕ)
    → len < 2 ^ 16
    → All IsMeant xs
    → length xs ≤ 64
    → Returns
        (λ r. r.0 ≡ record {
          magic = 93;
          version = 2;
          length = len;
          tlv_nb = length xs;
          body = tlvs_at m 4 xs;
        })
        (dserial_msg m
          (new_dsbuff (datagram_bytes len xs ++ stale) (length (datagram_bytes len xs))))
unfolding dserial_msg datagram_bytes new_dsbuff
dserial_msg-meant m len xs stale fits p few =
    let b : Sbuff = new_dsbuff (datagram_bytes len xs ++ stale) (length (datagram_bytes len xs)) in
    Run.mono
      (Gives-step {rest = stale} _ (dserial_char-Gives m 93 b _ refl) λ c t.
        Gives-step _ (dserial_char-Gives m 2 c _ t.left) λ d u.
          Gives-step _ (dserial_short-Gives m len d _ fits u.left) λ f v.
            let place : f.next ≡ 4 = omega (arith, t.moved, u.moved, v.moved) in
            Run.mono
              (Gives-map
                (λ body. record {
                  magic = 93;
                  version = 2;
                  length = len;
                  tlv_nb = length body;
                  body = body;
                })
                (dserial_tlvs_at m (f.real_size + 1) 0 xs f stale p (omega arith)
                  (omega (arith, t.same, u.same, v.same))
                  (omega (arith, t.moved, u.moved, v.moved, t.same, u.same, v.same)) v.left))
              λ r (q, w). (
                q
                    ∙ ap
                        (λ n. record {
                          magic = 93;
                          version = 2;
                          length = len;
                          tlv_nb = n;
                          body = tlvs_at m f.next xs;
                        })
                        (length-tlvs_at m f.next xs)
                    ∙ ap
                        (λ n. record {
                          magic = 93;
                          version = 2;
                          length = len;
                          tlv_nb = length xs;
                          body = tlvs_at m n xs;
                        })
                        place,
                w,
              ))
      λ r (q, w). q
