-- ===== src/Worker.antt =====
-- src/worker.c: the thread that sends the messages that wait, and what it does to the neighbours.
pub mod Messages
pub mod Retire
use s6_projet_reseau.Common.{
  ℕ, zero, suc, ◌+◌, Bool, true, false, Option, none, some, List, [], ◌∷◌, ◌==◌, ltb, leb, length,
  if◌then◌else◌,
}
use s6_projet_reseau.Common.Run
use s6_projet_reseau.Common.Run.{Run, ok, fault, stuck}
use s6_projet_reseau.Store.{Ptr, null, load}
use s6_projet_reseau.Dllist.{dllist_empty}
use s6_projet_reseau.Wire.Types.{Sockaddr, Tlv}
use s6_projet_reseau.Wire.Make.{new_msg}
use s6_projet_reseau.Wire.Free.{free_msg}
use s6_projet_reseau.Connect.{send_msg, send_go_away}
use s6_projet_reseau.Neighbours.{Key, NeighbourEntry, DllistMsg}
use s6_projet_reseau.Shared.{
  Stored, waiting_msg, Lock, Env, App, Act, pure, ◌>>=◌, ◌>>◌, from_run, on_heap, on_net, unlock,
  put_cur, put_pot, cur_of, pot_of, get_cur_neighbours, get_pot_neighbours, get_msg_map,
  get_msg_list,
}
use s6_projet_reseau.Process.{transfer}

-- The results 0, 1 and -1 of worker_iter_msg.
pub data Status : Type 0 where
  idle sent expired : Status

abbrev pub is_negative : Status → Bool
is_negative Status.expired = true
is_negative _ = false

-- The message that a node of a neighbour's list holds.
unfoldable pub msg_of : (Ptr → Option Stored) → Ptr → Run DllistMsg
msg_of stored p = elim (stored p) [ some (waiting_msg d) ↦ ok d | _ ↦ fault ]

module _ {M D : Type 0} (env : Env M D) where
  -- The TLVs of the local array `tab` are sent in one message. free_msg then frees that array. The
  -- loop that would free the TLVs behind it is not reached.
  unfoldable pub send_tab : Sockaddr → List Tlv → Act (App M D) (Unit {0})
  send_tab addr tab = do
    msg ← from_run (new_msg tab (length tab))
    on_net (send_msg env.machine env.accepts addr msg)
    from_run (Run.◌>>=◌ (free_msg false msg false) λ os. ok tt)

  -- The body of the loop for a message whose time has come. The length of the new TLV is read at
  -- `tab[count]` after `count++`, which is not assigned.
  unfoldable pub send_due :
      NeighbourEntry → DllistMsg → List Tlv → ℕ → Act (App M D) (Status × List Tlv)
  send_due nbr m tab size = do
    tab ←
        if ltb nbr.pmtu (size + m.body.data_len + 4)
        then (do send_tab nbr.addr tab; pure [])
        else pure tab
    if leb 5 m.tries then pure (Status.expired, tab) else λ s. fault

  -- The loop of worker_iter_msg. It never goes on to the next node.
  unfoldable pub worker_msgs :
      ℕ → NeighbourEntry → ℕ → Ptr → List Tlv → ℕ → Act (App M D) (Status × List Tlv)
  worker_msgs zero nbr mytime n tab size = λ s. stuck
  worker_msgs (suc fuel) nbr mytime n tab size =
      let again = worker_msgs fuel nbr mytime n tab size in
      let round : Act (App M D) (Status × List Tlv) = (do
        node ← on_heap (load n)
        m ← (λ s. from_run (msg_of s.stored node.content) s)
        if ltb m.time_send mytime then send_due nbr m tab size else again) in
      if n == null then pure (Status.sent, tab) else round

  unfoldable pub worker_iter_msg : ℕ → NeighbourEntry → Act (App M D) Status
  worker_iter_msg fuel nbr = if nbr.msg_to_send.first == null then pure Status.idle else (do
    r ← (λ s. worker_msgs fuel nbr (env.time s.stored) nbr.msg_to_send.first [] 0 s)
    send_tab nbr.addr r.1
    pure r.0)

  -- The round of worker_iter_nbr for a key: it is that of each neighbour, as nothing tests what
  -- worker_iter_msg returned before the neighbour is told and moved.
  unfoldable pub retire : ℕ → Key → NeighbourEntry → Act (App M D) (Unit {0})
  retire fuel key e = do
    rc ← worker_iter_msg fuel e
    if is_negative rc then on_heap (dllist_empty e.msg_to_send false) else pure tt
    on_net (send_go_away env.machine env.accepts e.addr)
    r ← (λ s. from_run (transfer env (cur_of env s) (pot_of env s) key) s)
    put_cur r.1
    put_pot r.2

  -- map_next goes on from the node of `key`. Where the round removed the key, map_remove has freed
  -- that node.
  unfoldable pub next_key : Key → Act (App M D) (Unit {0}) → Act (App M D) (Unit {0})
  next_key key rest s =
      (elim (env.nbr_lib.map_get (cur_of env s) key) as (λ _. Act (App M D) (Unit {0})) [
        | none ↦ λ _. fault
        | some e ↦ rest
      ])
        s

  -- The keys are those of the map at the start, as a round that goes on removed none. map_get gives
  -- null for a key that is not there, and the entry may be null itself.
  unfoldable pub worker_iter_nbr : ℕ → List Key → Act (App M D) (Unit {0})
  worker_iter_nbr fuel [] = pure tt
  worker_iter_nbr fuel (key ∷ keys) = λ s. elim (env.nbr_lib.map_get (cur_of env s) key) [
    | none ↦ pure tt s
    | some none ↦ fault
    | some (some e) ↦ (do retire fuel key e; next_key key (worker_iter_nbr fuel keys)) s
  ]

  -- The body of the loop of worker_loop, which then sleeps.
  unfoldable pub worker_pass : ℕ → Act (App M D) (Unit {0})
  worker_pass fuel = do
    cur ← get_cur_neighbours env
    pot ← get_pot_neighbours env
    l ← get_msg_list env
    m ← get_msg_map env
    worker_iter_nbr fuel (env.nbr_lib.map_keys cur)
    unlock Lock.cur_neighbours
    unlock Lock.pot_neighbours
    unlock Lock.msg_list
    unlock Lock.msg_map
