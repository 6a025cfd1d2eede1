-- ===== src/Connect/Received.antt =====
-- What process_datagram does with a datagram of a peer that writes the wire format right.
use mathlib.Core.Path.{fun_ext}
use s6_projet_reseau.Common.{
  ℕ, suc, ◌+◌, ◌<◌, ◌≤◌, ◌^◌, ◌≡◌, refl, ap, Bool, ◌∙◌, true, some, List, [], ◌∷◌, ◌++◌, length,
  All,
}
use s6_projet_reseau.Common.Run
use s6_projet_reseau.Common.Run.{Run, ok, ◌>>=◌}
use s6_projet_reseau.Wire.Machine.{Machine}
use s6_projet_reseau.Wire.Types.{Tlv}
use s6_projet_reseau.Wire.Dserial.Content.{content_body}
use s6_projet_reseau.Wire.Dserial.Meant.{
  Meant, IsMeant, meant_bytes, text_at, tlv_at, tlvs_at, datagram_bytes,
}
use s6_projet_reseau.Wire.Dserial.Restored.{dserial_msg-meant}
use s6_projet_reseau.Connect.{Handlers, process_tlv, process_tlvs, process_datagram}
use s6_projet_reseau.Connect.Dispatch.{ended, free_datagram-ended, meaning, process_tlv-received}

module _ {S : Type 0} (handlers : Handlers S) (m : Machine) where
  -- What a TLV at an offset of the datagram means, in front of what the TLVs behind it mean.
  abbrev pub meaning_at : ℕ → Meant → (S → Run S) → S → Run S
  meaning_at k (Meant.simple t) rest s = meaning handlers t.body rest s
  meaning_at k (Meant.neighbour ip port) rest s =
      handlers.process_neighbour (record { ip = ip; port = port }) s >>= rest
  meaning_at k (Meant.content sender_id nonce type text) rest s =
      handlers.process_data (content_body m (k + 2) sender_id nonce type text) s >>= rest
  meaning_at k (Meant.go_away code text) rest s =
      handlers.process_go_away
        (record { code = code; has_message = true; message = some (text_at m (k + 2 + 1) text) }) s
      >>= rest
  meaning_at k (Meant.warning text) rest s =
      handlers.process_warning (record { msg_len = length text; message = text_at m (k + 2) text })
        s
      >>= rest

  abbrev pub handled_at : (S → Run S) → ℕ → List Meant → S → Run S
  handled_at finish k [] s = finish s
  handled_at finish k (x ∷ xs) s =
      meaning_at k x (handled_at finish (k + length (meant_bytes x)) xs) s

  process_tlv_at :
      (finish : S → Run S) (k : ℕ) (x : Meant) (n : ℕ) (ts : List Tlv) (s : S)
      → IsMeant x
      → process_tlvs handlers finish (suc n) (tlv_at m k x ∷ ts) s
        ≡ meaning_at k x (process_tlvs handlers finish n ts) s
  unfolding process_tlvs process_tlv
  process_tlv_at finish k (Meant.simple t) n ts s p =
      process_tlv-received handlers t.type t.length t.body finish n ts s p
  process_tlv_at finish k (Meant.neighbour ip port) n ts s p = refl
  process_tlv_at finish k (Meant.content sender_id nonce type text) n ts s p = refl
  process_tlv_at finish k (Meant.go_away code text) n ts s p = refl
  process_tlv_at finish k (Meant.warning text) n ts s p = refl

  process_tlvs_at :
      (finish : S → Run S) (k : ℕ) (xs : List Meant) (s : S)
      → All IsMeant xs
      → process_tlvs handlers finish (length xs) (tlvs_at m k xs) s ≡ handled_at finish k xs s
  unfolding process_tlvs tlvs_at
  process_tlvs_at finish k [] s p = refl
  process_tlvs_at finish k (x ∷ xs) s p =
      process_tlv_at finish k x (length xs) (tlvs_at m (k + length (meant_bytes x)) xs) s p.0
      ∙ ap (λ rest. meaning_at k x rest s)
          (fun_ext λ t. process_tlvs_at finish (k + length (meant_bytes x)) xs t p.1)

  -- process_datagram on a datagram of this version in the wire format, of at most 64 TLVs of any of the
  -- types, whatever lies behind it in the receiver's buffer: it hands the value of each TLV up to the
  -- first PadN to its handler, in order, and does nothing else, but that without a PadN it frees the
  -- object of the datagram at the end, which is a fault if malloc did not give it. A text comes with the
  -- bytes that the peer wrote.
  pub process_datagram-handled_at :
      (from_malloc : Bool) (len : ℕ) (xs : List Meant) (stale : List ℕ) (s : S)
      → len < 2 ^ 16
      → All IsMeant xs
      → length xs ≤ 64
      → process_datagram handlers m from_malloc
          (datagram_bytes len xs ++ stale)
          (length (datagram_bytes len xs))
          s
        ≡ handled_at (ended from_malloc) 4 xs s
  unfolding process_datagram
  process_datagram-handled_at from_malloc len xs stale s fits p few =
      let (r, run, e) = Run.result (dserial_msg-meant m len xs stale fits p few) in
      rw (run, free_datagram-ended {S = S} from_malloc r.0 r.1, e)
        (process_tlvs_at (ended from_malloc) 4 xs s p)
