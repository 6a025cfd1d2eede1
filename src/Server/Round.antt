-- ===== src/Server/Round.antt =====
-- One round of the server with a datagram in the wire format.
use mathlib.Core.Path.{fun_ext}
use s6_projet_reseau.Common.{
  ℕ, ◌+◌, ◌<◌, ◌≤◌, ◌^◌, ◌≡◌, refl, ap, ◌∙◌, false, List, [], ◌∷◌, ◌++◌, length, drop, All, Bool,
  true, take_all,
}
use s6_projet_reseau.Common.Run.{Run, ok}
use s6_projet_reseau.Wire.Machine.{Machine}
use s6_projet_reseau.Wire.Types.{Sockaddr, Body}
use s6_projet_reseau.Wire.Dserial.Meant.{Meant, IsMeant, meant_bytes, datagram_bytes}
use s6_projet_reseau.Connect.{Handlers}
use s6_projet_reseau.Connect.Dispatch.{ended, meaning}
use s6_projet_reseau.Connect.Received.{meaning_at, handled_at, process_datagram-handled_at}
use s6_projet_reseau.Server.{datagram_from, req_len, server_round}

abbrev pub is_padn_body : Body → Bool
is_padn_body (Body.padn e) = true
is_padn_body _ = false

-- The TLV at which process_datagram returns.
abbrev pub is_padn : Meant → Bool
is_padn (Meant.simple t) = is_padn_body t.body
is_padn _ = false

module _ {S : Type 0} (handlers : Sockaddr → Handlers S) (m : Machine) where
  -- A datagram of this version in the wire format, of at most 64 TLVs, that fits the array.
  pub server_round-handled :
      (client : Sockaddr) (len : ℕ) (xs : List Meant) (req : List ℕ) (s : S)
      → len < 2 ^ 16
      → All IsMeant xs
      → length xs ≤ 64
      → length (datagram_bytes len xs) ≤ req_len
      → server_round handlers m (datagram_from client (datagram_bytes len xs) req) s
        ≡ handled_at (handlers client) m (ended false) 4 xs s
  unfolding server_round
  server_round-handled client len xs req s fits p few short =
      rw (take_all req_len (datagram_bytes len xs) short) (
        process_datagram-handled_at (handlers client) m false len xs
          (drop (length (datagram_bytes len xs)) req) s fits p few)

  meaning-padn :
      (client : Sockaddr) (body : Body) (rest : S → Run S) (s : S)
      → is_padn_body body ≡ true
      → meaning (handlers client) body rest s ≡ ok s
  meaning-padn client Body.null rest s e = cc
  meaning-padn client Body.unset rest s e = cc
  meaning-padn client (Body.padn b) rest s e = refl
  meaning-padn client (Body.hello b) rest s e = cc
  meaning-padn client (Body.neighbour b) rest s e = cc
  meaning-padn client (Body.content b) rest s e = cc
  meaning-padn client (Body.ack b) rest s e = cc
  meaning-padn client (Body.go_away b) rest s e = cc
  meaning-padn client (Body.warning b) rest s e = cc

  -- Nothing behind a PadN has an effect, not even the end of process_datagram.
  handled_at-padn :
      (client : Sockaddr) (finish : S → Run S) (k : ℕ) (xs : List Meant) (x : Meant)
      (ys : List Meant) (s : S)
      → is_padn x ≡ true
      → handled_at (handlers client) m finish k (xs ++ (x ∷ ys)) s
        ≡ handled_at (handlers client) m (λ t. ok t) k xs s
  handled_at-padn client finish k [] (Meant.simple t) ys s e = meaning-padn client t.body _ s e
  handled_at-padn client finish k [] (Meant.neighbour ip port) ys s e = cc
  handled_at-padn client finish k [] (Meant.content sender_id nonce type text) ys s e = cc
  handled_at-padn client finish k [] (Meant.go_away code text) ys s e = cc
  handled_at-padn client finish k [] (Meant.warning text) ys s e = cc
  handled_at-padn client finish k (y ∷ xs) x ys s e =
      ap (λ rest. meaning_at (handlers client) m k y rest s)
        (fun_ext λ t. handled_at-padn client finish (k + length (meant_bytes y)) xs x ys t e)

  -- A round with a datagram of this version in the wire format, of at most 64 TLVs, that fits the array
  -- and has a PadN among its TLVs: each value in front of the first is handed to its handler, in order,
  -- and the server goes on behind them.
  pub server_round-padn :
      (client : Sockaddr) (len : ℕ) (xs : List Meant) (x : Meant) (ys : List Meant) (req : List ℕ)
      (s : S)
      → len < 2 ^ 16
      → All IsMeant (xs ++ (x ∷ ys))
      → length (xs ++ (x ∷ ys)) ≤ 64
      → length (datagram_bytes len (xs ++ (x ∷ ys))) ≤ req_len
      → is_padn x ≡ true
      → server_round handlers m (datagram_from client (datagram_bytes len (xs ++ (x ∷ ys))) req) s
        ≡ handled_at (handlers client) m (λ t. ok t) 4 xs s
  server_round-padn client len xs x ys req s fits p few short e =
      server_round-handled client len (xs ++ (x ∷ ys)) req s fits p few short
      ∙ handled_at-padn client (ended false) 4 xs x ys s e
