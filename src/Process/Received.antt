-- ===== src/Process/Received.antt =====
-- A datagram with data, with the handlers of the program.
use s6_projet_reseau.Common.{
  ℕ, Bool, ◌<◌, ◌≤◌, ◌^◌, ◌≡◌, refl, ◌∙◌, List, ◌∷◌, ◌++◌, length, All, suc, true,
}
use s6_projet_reseau.Common.Run.{fault}
use s6_projet_reseau.Wire.Types.{Sockaddr}
use s6_projet_reseau.Wire.Dserial.Content.{content_body}
use s6_projet_reseau.Wire.Dserial.Meant.{Meant, IsMeant, datagram_bytes}
use s6_projet_reseau.Connect.{process_datagram}
use s6_projet_reseau.Connect.Received.{process_datagram-handled_at}
use s6_projet_reseau.Shared.{Env, App}
use s6_projet_reseau.Process.{handlers}
use s6_projet_reseau.Process.Peers.{process_data-fault}

-- A datagram in the wire format that begins with a Data TLV, over an open socket that accepts what is
-- sent to the peer: the program faults, whatever the data, the TLVs behind it and its own state are.
pub receive_data-fault :
    {M D : Type 0} (env : Env M D) (peer : Sockaddr) (s : App M D) (from_malloc : Bool)
    (len sender_id nonce type : ℕ) (text : List ℕ) (xs : List Meant) (stale : List ℕ)
    → len < 2 ^ 16
    → IsMeant (Meant.content sender_id nonce type text)
    → All IsMeant xs
    → suc (length xs) ≤ 64
    → s.net.is_open ≡ true
    → ((t : List ℕ) → env.accepts peer t ≡ true)
    → process_datagram
        (handlers env peer)
        env.machine
        from_malloc
        (datagram_bytes len (Meant.content sender_id nonce type text ∷ xs) ++ stale)
        (length (datagram_bytes len (Meant.content sender_id nonce type text ∷ xs)))
        s
      ≡ fault
unfolding handlers
receive_data-fault env peer s from_malloc len sender_id nonce type text xs stale fits good all few
      is_open accepted =
    process_datagram-handled_at (handlers env peer) env.machine from_malloc len
      (Meant.content sender_id nonce type text ∷ xs) stale s fits (good, all) few
    ∙ rw
        (process_data-fault env peer s (content_body env.machine 6 sender_id nonce type text)
          is_open accepted good.0 good.1)
        refl
