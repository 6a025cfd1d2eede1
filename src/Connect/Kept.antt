-- ===== src/Connect/Kept.antt =====
-- What every handler of a datagram keeps true of the state, a datagram keeps true.
use s6_projet_reseau.Common.{ℕ, zero, suc, ◌==◌, not, ◌||◌, Bool, true, false, List, [], ◌∷◌}
use s6_projet_reseau.Common.Run.{Run}
use s6_projet_reseau.Common.Holds.{Holds, holds, holds_fault, Holds-bind, Holds-test, any}
use s6_projet_reseau.Wire.Machine.{Machine}
use s6_projet_reseau.Wire.Types.{
  HelloBody, NeighbourBody, DataBody, AckBody, GoAwayBody, WarningBody, Tlv,
}
use s6_projet_reseau.Wire.Serial.{
  as_hello, as_neighbour, as_content, as_ack, as_go_away, as_warning,
}
use s6_projet_reseau.Wire.TlvType
use s6_projet_reseau.Wire.Sbuff.{new_dsbuff}
use s6_projet_reseau.Wire.Free.{free_msg, free_sbuff}
use s6_projet_reseau.Wire.Dserial.{dserial_msg}
use s6_projet_reseau.Connect.{Handlers, free_datagram, process_tlv, process_tlvs, process_datagram}

-- Each handler leads from states where `P` holds to such states alone.
pub record AreKept {S : Type 0} (P : S → Type 0) (handlers : Handlers S) : Type 0 where
  pub hello : (b : HelloBody) (s : S) → P s → Holds P (handlers.process_hello b s)
  pub neighbour : (b : NeighbourBody) (s : S) → P s → Holds P (handlers.process_neighbour b s)
  pub content : (b : DataBody) (s : S) → P s → Holds P (handlers.process_data b s)
  pub ack : (b : AckBody) (s : S) → P s → Holds P (handlers.process_ack b s)
  pub go_away : (b : GoAwayBody) (s : S) → P s → Holds P (handlers.process_go_away b s)
  pub warning : (b : WarningBody) (s : S) → P s → Holds P (handlers.process_warning b s)

module _ {S : Type 0} (P : S → Type 0) (handlers : Handlers S) (kept : AreKept P handlers) where
  process_tlv-Holds : (t : Tlv) (s : S) → P s → Holds P (process_tlv handlers t s)
  unfolding process_tlv
  process_tlv-Holds t s p =
      Holds-test (t.type == TlvType.hello) _ _
        (Holds-bind (any (as_hello t.body)) λ b _. kept.hello b s p)
        (Holds-test (t.type == TlvType.neighbour) _ _
          (Holds-bind (any (as_neighbour t.body)) λ b _. kept.neighbour b s p)
          (Holds-test (t.type == TlvType.content) _ _
            (Holds-bind (any (as_content t.body)) λ b _. kept.content b s p)
            (Holds-test (t.type == TlvType.ack) _ _
              (Holds-bind (any (as_ack t.body)) λ b _. kept.ack b s p)
              (Holds-test (t.type == TlvType.go_away) _ _
                (Holds-bind (any (as_go_away t.body)) λ b _. kept.go_away b s p)
                (Holds-test (t.type == TlvType.warning) _ _
                  (Holds-bind (any (as_warning t.body)) λ b _. kept.warning b s p) (holds p))))))

  process_tlvs-Holds :
      (finish : S → Run S) (n : ℕ) (ts : List Tlv) (s : S)
      → ((s : S) → P s → Holds P (finish s))
      → P s
      → Holds P (process_tlvs handlers finish n ts s)
  unfolding process_tlvs
  process_tlvs-Holds finish zero ts s end p = end s p
  process_tlvs-Holds finish (suc n) [] s end p = holds_fault
  process_tlvs-Holds finish (suc n) (t ∷ ts) s end p =
      let rest = λ (u : S) (q : P u). process_tlvs-Holds finish n ts u end q in
      Holds-test (t.type == TlvType.padn) _ _ (holds p) (Holds-bind (process_tlv-Holds t s p) rest)

  pub process_datagram-Holds :
      (m : Machine) (from_malloc : Bool) (input : List ℕ) (len : ℕ) (s : S)
      → P s
      → Holds P (process_datagram handlers m from_malloc input len s)
  unfolding process_datagram free_datagram
  process_datagram-Holds m from_malloc input len s p =
      Holds-bind (any (dserial_msg m (new_dsbuff input len))) λ (msg, buffer) _.
        Holds-test (not (msg.magic == 93) || not (msg.version == 2)) _ _ (holds p) (
          process_tlvs-Holds (free_datagram from_malloc msg buffer) msg.tlv_nb msg.body s
            (λ t q.
              Holds-bind (any (free_msg true msg false))
                λ _ _. Holds-bind (any (free_sbuff from_malloc buffer)) λ _ _. holds q)
            p)
