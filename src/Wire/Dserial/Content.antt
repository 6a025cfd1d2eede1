-- ===== src/Wire/Dserial/Content.antt =====
-- Data TLVs in the wire format of a peer that writes them right.
use s6_projet_reseau.Common.{
  ℕ, zero, suc, true, some, ◌+◌, ◌-◌, ◌%◌, ◌<◌, ◌^◌, ◌≡◌, refl, ap, ◌∙◌, arith, List, [], ◌∷◌, ◌++◌,
  append_assoc, length, be_bytes, ltb, lt→ltb,
}
use s6_projet_reseau.Common.Run
use s6_projet_reseau.Common.Run.{Run, ok, Returns, returns, ◌>>=◌}
use s6_projet_reseau.Wire.Machine.{Machine}
use s6_projet_reseau.Wire.Types.{DataBody, GoAwayBody}
use s6_projet_reseau.Wire.Make.{
  new_data_body, new_neighbour_body, copy_bytes, new_warning_body, new_go_away_body,
}
use s6_projet_reseau.Wire.Sbuff.{Sbuff}
use s6_projet_reseau.Wire.Dserial.{
  dserial_str, dserial_data_body, dserial_neighbour_body, dserial_warning_body, dserial_message,
  dserial_go_away_body,
}
use s6_projet_reseau.Wire.Dserial.Parse.{
  ahead, Gives, Gives-step, Gives-bind, Gives-map, dserial_char-Gives, dserial_short-Gives,
  dserial_int-Gives, dserial_long-Gives, dserial_chars-Gives,
}

-- The sender, the nonce, the type and the data.
abbrev pub content_bytes : ℕ → ℕ → ℕ → List ℕ → List ℕ
content_bytes sender_id nonce type text =
    be_bytes 8 sender_id ++ (be_bytes 4 nonce ++ ((type ∷ []) ++ text))

copy_bytes_self : (n : ℕ) (xs : List ℕ) → length xs ≡ n → copy_bytes n xs ≡ ok xs
unfolding copy_bytes
copy_bytes_self zero [] e = refl
copy_bytes_self zero (x ∷ xs) e = absurd (omega arith)
copy_bytes_self (suc n) [] e = absurd (omega arith)
copy_bytes_self (suc n) (x ∷ xs) e = rw (copy_bytes_self n xs (omega arith)) refl

module _ (m : Machine) where
  dserial_str-Gives :
      (text : List ℕ) (b : Sbuff) (rest : List ℕ)
      → length text < 256
      → ahead b ≡ text ++ rest
      → Returns
          (Gives (record { address = m.str_address b.next; bytes = text }) b text rest)
          (dserial_str m (length text) b)
  unfolding dserial_str
  dserial_str-Gives text b rest short h =
      rw (lt→ltb (length text) (2 ^ 31) (omega (arith, short))) (
        Gives-map (λ s. record { address = m.str_address b.next; bytes = s })
          (dserial_chars-Gives m text b rest h))

  -- The body that is read: its data are copied from behind the position `at`.
  abbrev pub content_body : ℕ → ℕ → ℕ → ℕ → List ℕ → DataBody
  content_body at sender_id nonce type text = record {
    sender_id = sender_id;
    nonce = nonce;
    type = type;
    data_len = length text;
    content = record { address = m.str_address (at + 13); bytes = text };
  }

  pub dserial_data_body-Gives :
      (sender_id nonce type : ℕ) (text : List ℕ) (b : Sbuff) (rest : List ℕ)
      → sender_id < 2 ^ 64
      → nonce < 2 ^ 32
      → length text + 13 < 256
      → ahead b ≡ content_bytes sender_id nonce type text ++ rest
      → Returns
          (Gives
            (content_body b.next sender_id nonce type text)
            b
            (content_bytes sender_id nonce type text)
            rest)
          (dserial_data_body m (length text + 13) b)
  unfolding dserial_data_body new_data_body
  dserial_data_body-Gives sender_id nonce type text b rest s n short h =
      let wrap : (length text + 13 + 2 ^ 64 - 8 - 4 - 1) % 2 ^ 64 ≡ length text = omega arith in
      rw wrap (
        Gives-step _ (dserial_long-Gives m sender_id b _ s h) λ c t.
          Gives-step _ (dserial_int-Gives m nonce c _ n t.left) λ d u.
            Gives-step _ (dserial_char-Gives m type d _ u.left) λ f v.
              let place : f.next ≡ b.next + 13 = omega (arith, t.moved, u.moved, v.moved) in
              Run.mono
                (Gives-map (λ p. new_data_body sender_id nonce type p (length text))
                  (dserial_str-Gives text f rest (omega (arith, short)) v.left))
                λ r (p, w). (
                  p
                      ∙ ap
                          (λ k. record {
                            sender_id = sender_id;
                            nonce = nonce;
                            type = type;
                            data_len = length text;
                            content = record { address = m.str_address k; bytes = text };
                          })
                          place,
                  w,
                ))

  pub dserial_neighbour_body-Gives :
      (ip : List ℕ) (port : ℕ) (b : Sbuff) (rest : List ℕ)
      → length ip ≡ 16
      → port < 2 ^ 16
      → ahead b ≡ (ip ++ be_bytes 2 port) ++ rest
      → Returns
          (Gives (record { ip = ip; port = port }) b (ip ++ be_bytes 2 port) rest)
          (dserial_neighbour_body m 18 b)
  unfolding dserial_neighbour_body new_neighbour_body
  dserial_neighbour_body-Gives ip port b rest size p h =
      Gives-bind _
        (rw size at (
          dserial_str-Gives ip b _ (omega (arith, size))
            (h ∙ append_assoc ip (be_bytes 2 port) rest)))
        λ c h'. Run.bind (dserial_short-Gives m port c rest p h') λ (v, d) (e, t).
          let copied : copy_bytes 16 ip ≡ ok ip = copy_bytes_self 16 ip size in
          rw (e, copied) (returns (refl, t))

  pub dserial_warning_body-Gives :
      (text : List ℕ) (b : Sbuff) (rest : List ℕ)
      → length text < 256
      → ahead b ≡ text ++ rest
      → Returns
          (Gives
            (record {
              msg_len = length text;
              message = record { address = m.str_address b.next; bytes = text };
            })
            b
            text
            rest)
          (dserial_warning_body m (length text) b)
  unfolding dserial_warning_body new_warning_body
  dserial_warning_body-Gives text b rest short h =
      Gives-map (λ p. new_warning_body p (length text)) (dserial_str-Gives text b rest short h)

  pub dserial_go_away_message-Gives :
      (code : ℕ) (text : List ℕ) (b : Sbuff) (rest : List ℕ)
      → 0 < length text
      → length text < 256
      → ahead b ≡ (code ∷ text) ++ rest
      → Returns
          (Gives
            (record {
              code = code;
              has_message = true;
              message = some (record { address = m.str_address (b.next + 1); bytes = text });
            })
            b
            (code ∷ text)
            rest)
          (dserial_go_away_body m (length text + 1) b)
  unfolding dserial_go_away_body dserial_message new_go_away_body
  dserial_go_away_message-Gives code text b rest more short h =
      let longer : ltb 1 (length text + 1) ≡ true = lt→ltb 1 (length text + 1) (omega arith) in
      let some_text : ltb 0 (length text) ≡ true = lt→ltb 0 (length text) more in
      let size : length text + 1 - 1 ≡ length text = omega arith in
      rw (longer, size)
        (Gives-step {xs = code ∷ []} {ys = text} _ (dserial_char-Gives m code b (text ++ rest) h)
          λ c t.
            let place : c.next ≡ b.next + 1 = omega (arith, t.moved) in
            Run.mono
              (Gives-map (λ p. new_go_away_body code p (length text))
                (dserial_str-Gives text c rest short t.left))
              λ r (q, w). (q ∙ made c.next some_text ∙ ap (λ k. with_text k) place, w))
    where
      with_text : ℕ → GoAwayBody
      with_text k = record {
        code = code;
        has_message = true;
        message = some (record { address = m.str_address k; bytes = text });
      }

      made :
          (k : ℕ)
          → ltb 0 (length text) ≡ true
          → new_go_away_body code (record { address = m.str_address k; bytes = text }) (length text)
            ≡ with_text k
      made k e = rw e refl
