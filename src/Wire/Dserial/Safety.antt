-- ===== src/Wire/Dserial/Safety.antt =====
-- The readers on any input: they end, and take as many bytes at least as they claim.
use s6_projet_reseau.Common.{
  ◌^◌, ℕ, zero, suc, ◌+◌, ◌-◌, ◌≤◌, ◌<◌, ◌≡◌, refl, ◌∙◌, inl, inr, arith, true, false, List, [],
  ◌∷◌, length, Bool, Bool-cases, ltb, ltb→lt, leb, if◌then◌else◌,
}
use s6_projet_reseau.Common.Run.{
  Run, ok, Ends, faults, ends, Ends-bind, Ends-mono, guard-Ends, ◌>>=◌,
}
use s6_projet_reseau.Wire.Machine.{Machine}
use s6_projet_reseau.Wire.Types.{NeighbourBody, msg_tlv_nb_def}
use s6_projet_reseau.Wire.Make.{copy_bytes, new_neighbour_body}
use s6_projet_reseau.Wire.Sbuff.{Sbuff, get_bytes}
use s6_projet_reseau.Wire.Dserial.{
  dserial_char, dserial_short, dserial_int, dserial_long, dserial_chars, dserial_str, dserial_dest,
  dserial_message, dserial_padn_body, dserial_hello_body, dserial_neighbour_body, dserial_data_body,
  dserial_ack_body, dserial_go_away_body, dserial_warning_body, dserial_body, dserial_tlv,
  dserial_tlvs, dserial_msg,
}

-- The position has moved by `n` bytes at least.
pub record Moved (b : Sbuff) (n : ℕ) (c : Sbuff) : Type 0 where
  pub further : b.next + n ≤ c.next
  pub same : c.real_size ≡ b.real_size

abbrev pub Moves : {A : Type 0} → Sbuff → ℕ → A × Sbuff → Type 0
Moves b n r = Moved b n r.1

Moves-bind :
    {A B : Type 0} {b : Sbuff} {r : Run (A × Sbuff)} (k : A × Sbuff → Run (B × Sbuff)) (i j : ℕ)
    → Ends (Moves b i) r
    → ((x : A) (c : Sbuff) → Ends (Moves c j) (k (x, c)))
    → Ends (Moves b (i + j)) (r >>= k)
Moves-bind k i j p next = Ends-bind p λ (x, c) q.
    Ends-mono (next x c)
      λ r t. record { further = omega (arith, q.further, t.further); same = t.same ∙ q.same }

Moves-ok : {A : Type 0} (x : A) (b : Sbuff) → Ends (Moves b 0) (ok (x, b))
Moves-ok x b = ends (record { further = omega arith; same = refl })

-- A result that is made from another.
Moves-map :
    {A B : Type 0} {b : Sbuff} {n : ℕ} {r : Run (A × Sbuff)} (f : A → B)
    → Ends (Moves b n) r
    → Ends (Moves b n) (r >>= λ (x, c). ok (f x, c))
Moves-map f p = Ends-bind p λ r q. ends q

relax :
    {A : Type 0} {b : Sbuff} {k : ℕ} {r : Run (A × Sbuff)} (n : ℕ)
    → n ≤ k
    → Ends (Moves b k) r
    → Ends (Moves b n) r
relax n h p = Ends-mono p λ r q. record { further = omega (arith, q.further); same = q.same }

weaken :
    {A : Type 0} {b : Sbuff} {n : ℕ} {r : Run (A × Sbuff)} → Ends (Moves b n) r → Ends (Moves b 0) r
weaken p = relax 0 (omega arith) p

module _ (m : Machine) where
  get_bytes-Moves : (n : ℕ) (b : Sbuff) → Ends (Moves b n) (get_bytes n b)
  unfolding get_bytes
  get_bytes-Moves n b = elim (Bool-cases (leb (b.next + n) (length b.block))) [
    | inl fits ↦ rw fits (ends (record { further = omega arith; same = refl }))
    | inr over ↦ rw over faults
  ]

  pub dserial_char-Moves : (b : Sbuff) → Ends (Moves b 1) (dserial_char m b)
  unfolding dserial_char
  dserial_char-Moves b = Moves-map _ (get_bytes-Moves 1 b)

  dserial_short-Moves : (b : Sbuff) → Ends (Moves b 2) (dserial_short m b)
  unfolding dserial_short
  dserial_short-Moves b = Moves-map _ (get_bytes-Moves 2 b)

  pub dserial_int-Moves : (b : Sbuff) → Ends (Moves b 4) (dserial_int m b)
  unfolding dserial_int
  dserial_int-Moves b = Moves-map _ (get_bytes-Moves 4 b)

  pub dserial_long-Moves : (b : Sbuff) → Ends (Moves b 8) (dserial_long m b)
  unfolding dserial_long
  dserial_long-Moves b = Moves-map _ (get_bytes-Moves 8 b)

  dserial_chars-Moves : (n : ℕ) (b : Sbuff) → Ends (Moves b n) (dserial_chars m n b)
  unfolding dserial_chars
  dserial_chars-Moves zero b = Moves-ok [] b
  dserial_chars-Moves (suc n) b = relax (suc n) (omega arith) (
      Moves-bind _ 1 n (dserial_char-Moves b)
        λ c d. Moves-map (λ s. c ∷ s) (dserial_chars-Moves n d))

  dserial_str-Moves : (n : ℕ) (b : Sbuff) → Ends (Moves b n) (dserial_str m n b)
  unfolding dserial_str
  dserial_str-Moves n b =
      Ends-bind (guard-Ends (ltb n (2 ^ 31))) λ _ _. Moves-map _ (dserial_chars-Moves n b)

  dserial_padn_body-Moves : (n : ℕ) (b : Sbuff) → Ends (Moves b 0) (dserial_padn_body m n b)
  unfolding dserial_padn_body
  dserial_padn_body-Moves n b = weaken (Moves-map _ (dserial_chars-Moves n b))

  dserial_dest-Moves : (l : Bool) (b : Sbuff) → Ends (Moves b 0) (dserial_dest m l b)
  unfolding dserial_dest
  dserial_dest-Moves true b = weaken (dserial_long-Moves b)
  dserial_dest-Moves false b = Moves-ok 0 b

  dserial_hello_body-Moves : (n : ℕ) (b : Sbuff) → Ends (Moves b 0) (dserial_hello_body m n b)
  unfolding dserial_hello_body
  dserial_hello_body-Moves n b = weaken (
      Moves-bind _ 8 0 (dserial_long-Moves b) λ src c. Moves-map _ (dserial_dest-Moves (ltb 8 n) c))

  copy_bytes-Ends : (n : ℕ) (ip : List ℕ) → Ends (λ _. Unit {0}) (copy_bytes n ip)
  unfolding copy_bytes
  copy_bytes-Ends zero ip = ends tt
  copy_bytes-Ends (suc n) [] = faults
  copy_bytes-Ends (suc n) (x ∷ ip) = Ends-bind (copy_bytes-Ends n ip) λ rest _. ends tt

  copy-Moves :
      (ip : List ℕ) (port : ℕ) (b : Sbuff)
      → Ends (Moves b 0) (new_neighbour_body ip port >>= λ e. ok (e, b))
  unfolding new_neighbour_body
  copy-Moves ip port b =
      Ends-bind (Ends-bind (copy_bytes-Ends 16 ip) λ copy _. made copy) λ e _. Moves-ok e b
    where
      made :
          (copy : List ℕ)
          → Ends {A = NeighbourBody} (λ _. Unit {0}) (ok (record { ip = copy; port = port }))
      made copy = ends tt

  dserial_neighbour_body-Moves :
      (n : ℕ) (b : Sbuff) → Ends (Moves b 0) (dserial_neighbour_body m n b)
  unfolding dserial_neighbour_body
  dserial_neighbour_body-Moves n b = weaken (
      Moves-bind _ 16 2 (dserial_str-Moves 16 b)
        λ ip c. Moves-bind _ 2 0 (dserial_short-Moves c) λ port d. copy-Moves ip.bytes port d)

  dserial_data_body-Moves : (n : ℕ) (b : Sbuff) → Ends (Moves b 0) (dserial_data_body m n b)
  unfolding dserial_data_body
  dserial_data_body-Moves n b = weaken (
      Moves-bind _ 8 5 (dserial_long-Moves b) λ id c.
        Moves-bind _ 4 1 (dserial_int-Moves c) λ nonce d.
          Moves-bind _ 1 0 (dserial_char-Moves d)
            λ type e. weaken (Moves-map _ (dserial_str-Moves _ e)))

  dserial_ack_body-Moves : (n : ℕ) (b : Sbuff) → Ends (Moves b 0) (dserial_ack_body m n b)
  unfolding dserial_ack_body
  dserial_ack_body-Moves n b =
      weaken (Moves-bind _ 8 4 (dserial_long-Moves b) λ id c. Moves-map _ (dserial_int-Moves c))

  dserial_message-Moves : (code n : ℕ) (b : Sbuff) → Ends (Moves b 0) (dserial_message m code n b)
  unfolding dserial_message
  dserial_message-Moves code n b = weaken (Moves-map _ (dserial_str-Moves n b))

  dserial_go_away_body-Moves : (n : ℕ) (b : Sbuff) → Ends (Moves b 0) (dserial_go_away_body m n b)
  unfolding dserial_go_away_body
  dserial_go_away_body-Moves n b = weaken (
      Moves-bind _ 1 0 (dserial_char-Moves b) λ code c. elim (Bool-cases (ltb 1 n)) [
        | inl more ↦ rw more (dserial_message-Moves code _ c)
        | inr none ↦ rw none (Moves-ok _ c)
      ])

  dserial_warning_body-Moves : (n : ℕ) (b : Sbuff) → Ends (Moves b 0) (dserial_warning_body m n b)
  unfolding dserial_warning_body
  dserial_warning_body-Moves n b = weaken (Moves-map _ (dserial_str-Moves n b))

  -- One test of a switch.
  case-Moves :
      {A : Type 0} (test : Bool) (b : Sbuff) (r s : Run (A × Sbuff))
      → Ends (Moves b 0) r
      → Ends (Moves b 0) s
      → Ends (Moves b 0) (if test then r else s)
  case-Moves true b r s p q = p
  case-Moves false b r s p q = q

  dserial_body-Moves : (type n : ℕ) (b : Sbuff) → Ends (Moves b 0) (dserial_body m type n b)
  unfolding dserial_body
  dserial_body-Moves type n b = case-Moves _ b _ _ (Moves-ok _ b) (
      case-Moves _ b _ _ (Moves-map _ (dserial_padn_body-Moves n b)) (
        case-Moves _ b _ _ (Moves-map _ (dserial_hello_body-Moves n b)) (
          case-Moves _ b _ _ (Moves-map _ (dserial_neighbour_body-Moves n b)) (
            case-Moves _ b _ _ (Moves-map _ (dserial_data_body-Moves n b)) (
              case-Moves _ b _ _ (Moves-map _ (dserial_ack_body-Moves n b)) (
                case-Moves _ b _ _ (Moves-map _ (dserial_go_away_body-Moves n b)) (
                  case-Moves _ b _ _ (Moves-map _ (dserial_warning_body-Moves n b))
                    (Moves-ok _ b))))))))

  dserial_tlv-Moves : (b : Sbuff) → Ends (Moves b 2) (dserial_tlv m b)
  unfolding dserial_tlv
  dserial_tlv-Moves b = Moves-bind _ 1 1 (dserial_char-Moves b) λ type c.
      Moves-bind _ 1 0 (dserial_char-Moves c) λ len d. Moves-map _ (dserial_body-Moves type len d)

  -- The loop ends on any input, with no more TLVs than there is room for.
  dserial_tlvs-Ends :
      (fuel i : ℕ) (b : Sbuff)
      → b.real_size - b.next < fuel
      → i ≤ 64
      → Ends (λ r. (length r.0 + i ≤ 64) × (b.real_size ≤ r.1.next)) (dserial_tlvs m fuel i b)
  unfolding dserial_tlvs
  dserial_tlvs-Ends zero i b h k = absurd (omega arith)
  dserial_tlvs-Ends (suc fuel) i b h k = elim (Bool-cases (ltb b.next b.real_size)) [
    | inr done ↦ rw done (ends (omega arith, ground arith))
    | inl more ↦ rw more (
        Ends-bind (dserial_tlv-Moves b) λ (t, c) q.
          Ends-bind (guard-Ends (ltb i msg_tlv_nb_def)) λ _ room.
            let below = ltb→lt i 64 room in
            Ends-bind
              (dserial_tlvs-Ends fuel (i + 1) c (omega (arith, q.further, q.same, ltb→lt _ _ more))
                (omega arith))
              λ (ts, d) (few, behind). ends (omega arith, omega (arith, q.same)))
  ]

-- dserial_msg on any buffer: its loops end, so it either reads outside an object or returns. What
-- it returns has the TLVs that it counts, 64 at most, and the position is behind the data.
pub dserial_msg-Ends :
    (m : Machine) (b : Sbuff)
    → Ends
        (λ r. (r.0.tlv_nb ≡ length r.0.body) × (r.0.tlv_nb ≤ 64) × (b.real_size ≤ r.1.next))
        (dserial_msg m b)
unfolding dserial_msg
dserial_msg-Ends m b = Ends-bind (dserial_char-Moves m b) λ (magic, c) p.
    Ends-bind (dserial_char-Moves m c) λ (version, d) q.
      Ends-bind (dserial_short-Moves m d) λ (len, e) r.
        Ends-bind (dserial_tlvs-Ends m (e.real_size + 1) 0 e (omega arith) (omega arith))
          λ (body, f) (few, behind). ends (refl, omega arith, omega (arith, p.same, q.same, r.same))
