-- ===== src/Wire/Dserial/Overread.antt =====
-- Lengths that the sender chose and the object does not have.
use s6_projet_reseau.Common.{ℕ, ltb, ◌≤◌, false, ◌+◌, ◌-◌, ◌%◌, ◌<◌, ◌^◌, ◌≡◌, arith}
use s6_projet_reseau.Common.Run.{fault, Ends-fault, fault-bind}
use s6_projet_reseau.Wire.Dserial.Safety.{dserial_char-Moves, dserial_int-Moves, dserial_long-Moves}
use s6_projet_reseau.Wire.Machine.{Machine}
use s6_projet_reseau.Wire.Sbuff.{Sbuff}
use s6_projet_reseau.Wire.Dserial.{dserial_str, dserial_data_body}

module _ (m : Machine) where
  -- A length that wrapped.
  dserial_str-fault : (n : ℕ) (b : Sbuff) → 2 ^ 31 ≤ n → dserial_str m n b ≡ fault
  unfolding dserial_str
  dserial_str-fault n b long = let over : ltb n (2 ^ 31) ≡ false = ground (arith, long) in rw over

  pub dserial_data_body-fault :
      (tlv_len : ℕ) (b : Sbuff) → tlv_len < 13 → dserial_data_body m tlv_len b ≡ fault
  unfolding dserial_data_body
  dserial_data_body-fault tlv_len b short = Ends-fault _ (dserial_long-Moves m b) λ (id, c) _.
      Ends-fault _ (dserial_int-Moves m c) λ (nonce, d) _.
        Ends-fault _ (dserial_char-Moves m d) λ (type, e) _.
          fault-bind _
            (dserial_str-fault ((tlv_len + 2 ^ 64 - 8 - 4 - 1) % 2 ^ 64) e (omega (arith, short)))
