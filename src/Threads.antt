-- ===== src/Threads.antt =====
-- The threads of the worker and of the server side by side: the mutexes that each takes and releases,
-- in the order of src/worker.c, src/connect.c, src/neighbour_map.c and src/msg_list.c.
pub mod Order
pub mod Finish
use s6_projet_reseau.Common.{
  ℕ, zero, suc, ◌≡◌, refl, ◌&&◌, not, Bool, true, false, List, [], ◌∷◌, ◌++◌,
}
use s6_projet_reseau.Shared.{Lock, Action, acquire, release, Locks, no_locks, holds, set_lock}

-- One pass of worker_loop.
abbrev pub worker_locks : List Action
worker_locks =
    acquire Lock.cur_neighbours
    ∷ acquire Lock.pot_neighbours
    ∷ acquire Lock.msg_list
    ∷ acquire Lock.msg_map
    ∷ release Lock.cur_neighbours
    ∷ release Lock.pot_neighbours
    ∷ release Lock.msg_list
    ∷ release Lock.msg_map
    ∷ []

-- What the server may do with the neighbours: process_hello of a known peer, process_ack,
-- process_go_away, a round of add_new_neighbour in which the hello was sent, or was not, and add_msg of
-- a message that is known.
pub data Event : Type 0 where
  hello ack go_away greeted not_greeted repeated : Event

abbrev pub event_locks : Event → List Action
event_locks Event.hello =
    acquire Lock.cur_neighbours
    ∷ acquire Lock.pot_neighbours
    ∷ release Lock.cur_neighbours
    ∷ release Lock.pot_neighbours
    ∷ []
event_locks Event.ack = acquire Lock.cur_neighbours ∷ release Lock.cur_neighbours ∷ []
event_locks Event.go_away =
    acquire Lock.cur_neighbours
    ∷ acquire Lock.pot_neighbours
    ∷ release Lock.cur_neighbours
    ∷ release Lock.pot_neighbours
    ∷ []
event_locks Event.greeted = acquire Lock.cur_neighbours ∷ release Lock.cur_neighbours ∷ []
event_locks Event.not_greeted = acquire Lock.pot_neighbours ∷ release Lock.pot_neighbours ∷ []
event_locks Event.repeated = acquire Lock.msg_list ∷ release Lock.msg_list ∷ []

-- add_msg of a new message, with a list that is not empty.
abbrev pub add_msg_locks : List Action
add_msg_locks =
    acquire Lock.msg_list
    ∷ release Lock.msg_list
    ∷ acquire Lock.msg_map
    ∷ acquire Lock.msg_list
    ∷ acquire Lock.cur_neighbours
    ∷ release Lock.cur_neighbours
    ∷ release Lock.msg_map
    ∷ release Lock.msg_list
    ∷ []

-- A trace, with the last action in front, after the actions `p`.
abbrev pub rev_onto : List Action → List Action → List Action
rev_onto [] trace = trace
rev_onto (a ∷ p) trace = rev_onto p (a ∷ trace)

-- The worker in `n` passes, and the server in some events.
abbrev pub passes : ℕ → List Action
passes zero = []
passes (suc n) = worker_locks ++ passes n

abbrev pub serve : List Event → List Action
serve [] = []
serve (e ∷ es) = event_locks e ++ serve es

-- What a thread holds, and what it is still to do.
pub record Thread : Type 0 where
  pub held : Locks
  pub rest : List Action

pub record System : Type 0 where
  pub worker : Thread
  pub server : Thread

abbrev pub thread : Locks → List Action → Thread
thread held rest = record { held = held; rest = rest }

abbrev pub start : List Action → List Action → System
start w s = record { worker = thread no_locks w; server = thread no_locks s }

-- A thread goes on beside another that holds `other`: a mutex is taken when no one holds it.
pub data Move (other : Locks) : Thread → Thread → Type 0 where
  takes :
      {h : Locks} {k : Lock} {p : List Action}
      → holds k h ≡ false
      → holds k other ≡ false
      → Move other (thread h (acquire k ∷ p)) (thread (set_lock k true h) p)
  releases :
      {h : Locks} {k : Lock} {p : List Action}
      → holds k h ≡ true
      → Move other (thread h (release k ∷ p)) (thread (set_lock k false h) p)

pub data Step : System → System → Type 0 where
  worker_step :
      {s t u : Thread}
      → Move u.held s t
      → Step (record { worker = s; server = u }) (record { worker = t; server = u })
  server_step :
      {s t u : Thread}
      → Move u.held s t
      → Step (record { worker = u; server = s }) (record { worker = u; server = t })

pub data Reach (s : System) : System → Type 0 where
  here : Reach s s
  next : {t u : System} → Reach s t → Step t u → Reach s u

abbrev pub can_do : Locks → Locks → List Action → Bool
can_do h other [] = false
can_do h other (acquire k ∷ p) = not (holds k h) && not (holds k other)
can_do h other (release k ∷ p) = holds k h

-- The next action of a thread can be done beside another that holds `other`.
abbrev pub ready : Locks → Thread → Bool
ready other t = can_do t.held other t.rest

pub ready_of_Move : {other : Locks} {s t : Thread} → Move other s t → ready other s ≡ true
ready_of_Move (takes free other_free) = rw (free, other_free) refl
ready_of_Move (releases mine) = mine
