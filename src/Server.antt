-- ===== src/Server.antt =====
-- The thread of the server: udp_server of src/connect.c.
pub mod Round
pub mod Stop
pub mod Peers
use s6_projet_reseau.Common.{
  ℕ, Bool, true, false, Option, none, some, List, [], ◌∷◌, ◌++◌, length, take, drop, not,
  if◌then◌else◌,
}
use s6_projet_reseau.Common.Run.{Run, ok, ◌>>=◌}
use s6_projet_reseau.Wire.Machine.{Machine}
use s6_projet_reseau.Wire.Types.{Sockaddr}
use s6_projet_reseau.Connect.{Net, Handlers, process_datagram}

abbrev pub req_len : ℕ
req_len = 4096

-- What the system calls of the setup return: a socket, its flags, whether they could be set, and
-- whether the socket could be bound to the port.
pub record Setup : Type 0 where
  pub socket_ok : Bool
  pub getfl_ok : Bool
  pub setfl_ok : Bool
  pub bind_ok : Bool

-- The socket after the setup, or none if the process exits.
unfoldable pub set_up : Setup → Net → Option Net
set_up calls net =
    if not calls.socket_ok
    then none
    else if not calls.getfl_ok
    then none
    else if not calls.setfl_ok
    then none
    else if not calls.bind_ok
    then none
    else some (record net { is_open = true })

-- What select and recvfrom give in a round of the loop: an error of one of them, nothing for ten
-- seconds, or a datagram with its sender. `req` is what the array held before.
pub data Arrival : Type 0 where
  select_error timeout recv_error : Arrival
  datagram_from : Sockaddr → List ℕ → List ℕ → Arrival

module _ {S : Type 0} (handlers : Sockaddr → Handlers S) (m : Machine) where
  -- recvfrom drops what does not fit the array. The array is a local variable.
  unfoldable pub server_round : Arrival → S → Run S
  server_round Arrival.select_error s = ok s
  server_round Arrival.timeout s = ok s
  server_round Arrival.recv_error s = ok s
  server_round (Arrival.datagram_from client text req) s =
      let received = take req_len text in
      process_datagram (handlers client) m false (received ++ drop (length received) req)
        (length received) s

  -- The loop over what arrives; it has no end of its own.
  unfoldable pub server_loop : List Arrival → S → Run S
  server_loop [] s = ok s
  server_loop (a ∷ arrivals) s = do s ← server_round a s; server_loop arrivals s

  -- The whole thread. `open_socket` sets the global `sock`; none is the end of the process.
  unfoldable pub udp_server : Setup → (S → Net) → (Net → S → S) → List Arrival → S → Run (Option S)
  udp_server calls net_of set_net arrivals s = elim (set_up calls (net_of s)) [
    | none ↦ ok none
    | some net ↦ (do s ← server_loop arrivals (set_net net s); ok (some s))
  ]
