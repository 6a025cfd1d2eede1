-- ===== src/Server/Stop.antt =====
-- The server does not get past a message that it processes to the end.
use s6_projet_reseau.Common.{
  ℕ, ◌+◌, ◌<◌, ◌≤◌, ◌^◌, ◌≡◌, ◌≢◌, refl, sym, ◌∙◌, false, Option, none, some, List, [], ◌∷◌, ◌++◌,
  length, All,
}
use s6_projet_reseau.Common.Run.{Run, ok, fault, stuck, blocked, ◌>>=◌}
use s6_projet_reseau.Wire.Machine.{Machine}
use s6_projet_reseau.Wire.Types.{Sockaddr, Body}
use s6_projet_reseau.Wire.Dserial.Meant.{Meant, IsMeant, meant_bytes, datagram_bytes}
use s6_projet_reseau.Connect.{Net, Handlers}
use s6_projet_reseau.Connect.Dispatch.{ended, meaning}
use s6_projet_reseau.Connect.Received.{meaning_at, handled_at}
use s6_projet_reseau.Server.{
  Arrival, datagram_from, req_len, Setup, set_up, server_round, server_loop, udp_server,
}
use s6_projet_reseau.Server.Round.{is_padn_body, is_padn, server_round-handled}

-- The run has no result.
abbrev pub Never : {A : Type 0} → Run A → Type 0
Never {A = A} r = (a : A) → r ≢ ok a

Never-bind : {A B : Type 0} (r : Run A) (k : A → Run B) → ((a : A) → Never (k a)) → Never (r >>= k)
Never-bind (ok a) k never = never a
Never-bind fault k never = λ b e. cc
Never-bind stuck k never = λ b e. cc
Never-bind blocked k never = λ b e. cc

Never-first : {A B : Type 0} (r : Run A) (k : A → Run B) → Never r → Never (r >>= k)
Never-first (ok a) k never = absurd (never a refl)
Never-first fault k never = λ b e. cc
Never-first stuck k never = λ b e. cc
Never-first blocked k never = λ b e. cc

module _ {S : Type 0} (handlers : Handlers S) (m : Machine) where
  meaning-Never :
      (body : Body) (rest : S → Run S)
      → is_padn_body body ≡ false
      → ((s : S) → Never (rest s))
      → (s : S) → Never (meaning handlers body rest s)
  meaning-Never Body.null rest e never s = never s
  meaning-Never Body.unset rest e never s = never s
  meaning-Never (Body.padn b) rest e never s = cc
  meaning-Never (Body.hello b) rest e never s = Never-bind _ rest never
  meaning-Never (Body.neighbour b) rest e never s = never s
  meaning-Never (Body.content b) rest e never s = never s
  meaning-Never (Body.ack b) rest e never s = Never-bind _ rest never
  meaning-Never (Body.go_away b) rest e never s = Never-bind _ rest never
  meaning-Never (Body.warning b) rest e never s = never s

  meaning_at-Never :
      (k : ℕ) (x : Meant) (rest : S → Run S)
      → is_padn x ≡ false
      → ((s : S) → Never (rest s))
      → (s : S) → Never (meaning_at handlers m k x rest s)
  meaning_at-Never k (Meant.simple t) rest e never s = meaning-Never t.body rest e never s
  meaning_at-Never k (Meant.neighbour ip port) rest e never s = Never-bind _ rest never
  meaning_at-Never k (Meant.content sender_id nonce type text) rest e never s =
      Never-bind _ rest never
  meaning_at-Never k (Meant.go_away code text) rest e never s = Never-bind _ rest never
  meaning_at-Never k (Meant.warning text) rest e never s = Never-bind _ rest never

  handled_at-Never :
      (k : ℕ) (xs : List Meant)
      → All (λ x. is_padn x ≡ false) xs
      → (s : S) → Never (handled_at handlers m (ended false) k xs s)
  handled_at-Never k [] p s = λ a e. cc
  handled_at-Never k (x ∷ xs) p s =
      meaning_at-Never k x _ p.0 (handled_at-Never (k + length (meant_bytes x)) xs p.1) s

module _ {S : Type 0} (handlers : Sockaddr → Handlers S) (m : Machine) where
  server_loop-Never :
      (before : List Arrival) (a : Arrival) (after : List Arrival)
      → ((s : S) → Never (server_round handlers m a s))
      → (s : S) → Never (server_loop handlers m (before ++ (a ∷ after)) s)
  unfolding server_loop
  server_loop-Never [] a after never s = Never-first (server_round handlers m a s) _ (never s)
  server_loop-Never (b ∷ before) a after never s =
      Never-bind (server_round handlers m b s) _ (server_loop-Never before a after never)

  -- When a datagram of this version in the wire format, of at most 64 TLVs of which none is a PadN,
  -- that fits the array, is among those that arrive, the server does not get to the end of what
  -- arrives, whatever the setup, the handlers and the other arrivals do, unless the setup ends the
  -- process: it stops at this datagram or in front of it, as the array that it frees is a local
  -- variable.
  pub udp_server-Never :
      (calls : Setup) (net_of : S → Net) (set_net : Net → S → S) (before : List Arrival)
      (client : Sockaddr) (len : ℕ) (xs : List Meant) (req : List ℕ) (after : List Arrival) (s : S)
      → len < 2 ^ 16
      → All IsMeant xs
      → length xs ≤ 64
      → length (datagram_bytes len xs) ≤ req_len
      → All (λ x. is_padn x ≡ false) xs
      → (t : S)
      → udp_server handlers m calls net_of set_net
          (before ++ (datagram_from client (datagram_bytes len xs) req ∷ after))
          s
        ≢ ok (some t)
  unfolding udp_server
  udp_server-Never calls net_of set_net before client len xs req after s fits p few short none_padn
        t =
      by_setup (set_up calls (net_of s))
    where
      crash : Arrival
      crash = datagram_from client (datagram_bytes len xs) req

      round : (u : S) → Never (server_round handlers m crash u)
      round u b e =
          handled_at-Never (handlers client) m 4 xs none_padn u b
            (sym (server_round-handled handlers m client len xs req u fits p few short) ∙ e)

      by_setup :
          (o : Option Net)
          → (elim o [
            | none ↦ ok none
            | some net ↦ (do
              s ← server_loop handlers m (before ++ (crash ∷ after)) (set_net net s)
              ok (some s))
          ])
            ≢ ok (some t)
      by_setup none e = cc
      by_setup (some net) e =
          Never-first _ _ (server_loop-Never before crash after round (set_net net s)) (some t) e
