-- ===== src/Connect/Dispatch.antt =====
-- What becomes of a datagram whose sender is this program.
use s6_projet_reseau.Common.{
  ℕ, suc, ◌≤◌, ◌≡◌, if◌then◌else◌, true, false, Bool, refl, ap, ◌∙◌, not, List, [], ◌∷◌, ◌++◌, ◌==◌,
  length, ◌||◌, All, if◌then◌else◌,
}
use mathlib.Core.Path.{fun_ext}
use s6_projet_reseau.Common.Run
use s6_projet_reseau.Common.Run.{Run, ok, fault, stuck, blocked, guard, Returns, returns, ◌>>=◌}
use s6_projet_reseau.Wire.Machine.{Machine}
use s6_projet_reseau.Wire.Types.{Body, Tlv, Msg}
use s6_projet_reseau.Wire.Sbuff.{Sbuff, new_sbuff}
use s6_projet_reseau.Wire.Serial.{serial_msg}
use s6_projet_reseau.Wire.Serial.Format.{IsPlain, IsPlainBody, IsPlainMsg, received, received_body}
use s6_projet_reseau.Wire.RoundTrip.{datagram, receive, receive-serial_msg}
use s6_projet_reseau.Wire.Free.{free_msg, free_sbuff}
use s6_projet_reseau.Connect.{Handlers, process_tlv, process_tlvs, free_datagram, process_datagram}

pub >>=-ok : {A : Type 0} (r : Run A) → (r >>= λ a. ok a) ≡ r
>>=-ok (ok a) = refl
>>=-ok fault = refl
>>=-ok stuck = refl
>>=-ok blocked = refl

-- The end of process_datagram: it frees the object that holds the datagram.
abbrev pub ended : {S : Type 0} → Bool → S → Run S
ended from_malloc s = if from_malloc then ok s else fault

pub free_datagram-ended :
    {S : Type 0} (from_malloc : Bool) (msg : Msg) (buffer : Sbuff)
    → free_datagram {S = S} from_malloc msg buffer ≡ ended from_malloc
unfolding free_datagram free_msg free_sbuff
free_datagram-ended true msg buffer = refl
free_datagram-ended false msg buffer = refl

-- What any receiver of a datagram does, whatever lies behind it in the object: `action`, and then the
-- end of process_datagram.
abbrev pub Acts : {S : Type 0} → Handlers S → List ℕ → (S → Run S) → Type 0
Acts {S = S} handlers text action =
    (receiver : Machine) (from_malloc : Bool) (stale : List ℕ) (s : S)
    → process_datagram handlers receiver from_malloc (text ++ stale) (length text) s
      ≡ (action s >>= ended from_malloc)

module _ {S : Type 0} (handlers : Handlers S) where
  -- What a body without a string means, in front of what the TLVs behind it mean: it goes to its
  -- handler, but a PadN ends the message.
  abbrev pub meaning : Body → (S → Run S) → S → Run S
  meaning (Body.padn e) rest s = ok s
  meaning (Body.hello e) rest s = handlers.process_hello e s >>= rest
  meaning (Body.ack e) rest s = handlers.process_ack e s >>= rest
  meaning (Body.go_away e) rest s = handlers.process_go_away e s >>= rest
  meaning _ rest s = rest s

  abbrev pub handled : (S → Run S) → List Tlv → S → Run S
  handled finish [] s = finish s
  handled finish (t ∷ ts) s = meaning t.body (handled finish ts) s

  pub process_tlv-received :
      (type len : ℕ) (body : Body) (finish : S → Run S) (n : ℕ) (ts : List Tlv) (s : S)
      → IsPlainBody type len body
      → process_tlvs handlers finish
          (suc n)
          (record { type = type; length = len; body = received_body body } ∷ ts)
          s
        ≡ meaning body (process_tlvs handlers finish n ts) s
  unfolding process_tlvs process_tlv
  process_tlv-received type len Body.null finish n ts s p = rw p.0 refl
  process_tlv-received type len Body.unset finish n ts s p = rw p.0 refl
  process_tlv-received type len (Body.padn e) finish n ts s p = rw p.0 refl
  process_tlv-received type len (Body.hello e) finish n ts s p = rw p.0 refl
  process_tlv-received type len (Body.neighbour e) finish n ts s p = absurd p
  process_tlv-received type len (Body.content e) finish n ts s p = absurd p
  process_tlv-received type len (Body.ack e) finish n ts s p = rw p.0 refl
  process_tlv-received type len (Body.go_away e) finish n ts s p = rw p.0 refl
  process_tlv-received type len (Body.warning e) finish n ts s p = absurd p

  process_tlvs-received :
      (finish : S → Run S) (ts : List Tlv) (s : S)
      → All IsPlain ts
      → process_tlvs handlers finish (length ts) (received ts) s ≡ handled finish ts s
  unfolding process_tlvs received
  process_tlvs-received finish [] s p = refl
  process_tlvs-received finish (t ∷ ts) s p =
      process_tlv-received t.type t.length t.body finish (length ts) (received ts) s p.0
      ∙ ap (λ rest. meaning t.body rest s) (fun_ext λ r. process_tlvs-received finish ts r p.1)

  process_parsed :
      (finish : S → Run S) (msg : Msg) (s : S)
      → IsPlainMsg msg
      → msg.magic ≡ 93
      → msg.version ≡ 2
      → (if not (msg.magic == 93) || not (msg.version == 2)
          then ok s
          else process_tlvs handlers finish msg.tlv_nb (received msg.body) s)
        ≡ handled finish msg.body s
  process_parsed finish msg s p magic version =
      rw (magic, version, p.count) (process_tlvs-received finish msg.body s p.plain)

  -- A message of this version without strings, of at most 64 TLVs, that one machine writes and that
  -- another takes from the network, whatever lies behind it in the receiver's buffer: writing it
  -- does not fault, and process_datagram hands each body up to the first PadN to its handler, in
  -- order, and does nothing else, but that without a PadN it frees the object of the datagram at the
  -- end, which is a fault if malloc did not give it.
  pub process_datagram-handled :
      (sender receiver : Machine) (from_malloc : Bool) (msg : Msg) (stale : List ℕ) (s : S)
      → IsPlainMsg msg
      → msg.magic ≡ 93
      → msg.version ≡ 2
      → length msg.body ≤ 64
      → Returns
          (λ b.
            process_datagram handlers receiver from_malloc
              (datagram b ++ stale)
              (length (datagram b))
              s
            ≡ handled (ended from_malloc) msg.body s)
          (serial_msg sender msg (new_sbuff sender.junk))
  unfolding process_datagram receive
  process_datagram-handled sender receiver from_malloc msg stale s p magic version few =
      Run.mono (receive-serial_msg sender receiver msg stale p few) λ b r.
        let (a, e, q) = Run.result r in
        rw (e, free_datagram-ended {S = S} from_malloc a.0 a.1, q)
          (process_parsed (ended from_malloc) msg s p magic version)
