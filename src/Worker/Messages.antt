-- ===== src/Worker/Messages.antt =====
-- worker_iter_msg on a list with a message: it does not return.
use s6_projet_reseau.Common.{
  ℕ, zero, suc, ◌≤◌, arith, ◌≡◌, ◌≢◌, refl, false, Option, some, List, [], ltb, ne→not_==, length,
}
use s6_projet_reseau.Common.Run
use s6_projet_reseau.Common.Run.{Run, ok, fault, stuck}
use s6_projet_reseau.Store.{Ptr, null, Node}
use s6_projet_reseau.Store.Steps.{load-ok}
use s6_projet_reseau.Wire.Types.{Sockaddr, Tlv}
use s6_projet_reseau.Wire.Make.{new_msg}
use s6_projet_reseau.Wire.Free.{free_msg}
use s6_projet_reseau.Connect.{send_msg}
use s6_projet_reseau.Neighbours.{NeighbourEntry, DllistMsg}
use s6_projet_reseau.Shared.{Stored, waiting_msg, Env, App, from_run, on_net}
use s6_projet_reseau.Worker.{Status, msg_of, send_tab, worker_msgs, worker_iter_msg}

msg_of-waiting :
    (stored : Ptr → Option Stored) (p : Ptr) (m : DllistMsg)
    → stored p ≡ some (waiting_msg m)
    → msg_of stored p ≡ ok m
unfolding msg_of
msg_of-waiting stored p m e = rw (e, msg_of) refl

-- A run that does not return.
abbrev pub Fails {ℓ} : {A : Type ℓ} → Run A → Type 0
Fails (ok a) = ⊥
Fails _ = Unit

Fails-bind {ℓ κ} :
    {A : Type ℓ} {B : Type κ} (r : Run A) (k : A → Run B)
    → ((a : A) → Fails (k a))
    → Fails (Run.◌>>=◌ r k)
Fails-bind (ok a) k h = h a
Fails-bind fault k h = tt
Fails-bind stuck k h = tt
Fails-bind Run.blocked k h = tt

Fails-first {ℓ κ} :
    {A : Type ℓ} {B : Type κ} (r : Run A) (k : A → Run B) → Fails r → Fails (Run.◌>>=◌ r k)
Fails-first (ok a) k h = absurd h
Fails-first fault k h = tt
Fails-first stuck k h = tt
Fails-first Run.blocked k h = tt

ne-ok_of_Fails {ℓ} : {A : Type ℓ} (r : Run A) (a : A) → Fails r → r ≢ ok a
ne-ok_of_Fails (ok b) a h e = absurd h
ne-ok_of_Fails fault a h e = cc
ne-ok_of_Fails stuck a h e = cc
ne-ok_of_Fails Run.blocked a h e = cc

module _ {M D : Type 0} (env : Env M D) where
  send_tab-Fails :
      (addr : Sockaddr) (tab : List Tlv) (s : App M D) → Fails (send_tab env addr tab s)
  unfolding send_tab free_msg
  send_tab-Fails addr tab s =
      Fails-bind (from_run (new_msg tab (length tab)) s) _
        λ r. Fails-bind (on_net (send_msg env.machine env.accepts addr r.0) r.1) _ λ t. tt

  -- worker_iter_msg of a neighbour whose list is not empty never returns: it waits for ever, or it
  -- does what is undefined.
  pub worker_iter_msg-ne-ok :
      (fuel : ℕ) (nbr : NeighbourEntry) (s : App M D) (r : Status × App M D)
      → nbr.msg_to_send.first ≢ null
      → worker_iter_msg env fuel nbr s ≢ ok r
  unfolding worker_iter_msg
  worker_iter_msg-ne-ok fuel nbr s r ne = rw (ne→not_== _ null ne) (
      ne-ok_of_Fails _ r (
        Fails-bind (worker_msgs env fuel nbr (env.time s.stored) nbr.msg_to_send.first [] 0 s) _
          λ t. Fails-first (send_tab env nbr.addr t.0.1 t.1) _ (send_tab-Fails nbr.addr t.0.1 t.1)))

  worker_msgs-stuck :
      (fuel : ℕ) (nbr : NeighbourEntry) (mytime : ℕ) (p : Ptr) (s : App M D) (node : Node)
      (m : DllistMsg)
      → p ≢ null
      → s.heap.cell p ≡ some node
      → s.stored node.content ≡ some (waiting_msg m)
      → ltb m.time_send mytime ≡ false
      → worker_msgs env fuel nbr mytime p [] 0 s ≡ stuck
  unfolding worker_msgs
  worker_msgs-stuck zero nbr mytime p s node m ne holds waits early = refl
  worker_msgs-stuck (suc fuel) nbr mytime p s node m ne holds waits early =
      rw
        (
          ne→not_== p null ne,
          load-ok s.heap p node ne holds,
          msg_of-waiting s.stored node.content m waits,
          early,
        )
        (worker_msgs-stuck fuel nbr mytime p s node m ne holds waits early)

  -- worker_iter_msg of a neighbour whose list begins with a message that is not due loops for ever: no
  -- number of rounds is enough.
  pub worker_iter_msg-stuck :
      (nbr : NeighbourEntry) (s : App M D) (node : Node) (m : DllistMsg)
      → nbr.msg_to_send.first ≢ null
      → s.heap.cell nbr.msg_to_send.first ≡ some node
      → s.stored node.content ≡ some (waiting_msg m)
      → env.time s.stored ≤ m.time_send
      → (fuel : ℕ) → worker_iter_msg env fuel nbr s ≡ stuck
  unfolding worker_iter_msg
  worker_iter_msg-stuck nbr s node m ne holds waits early fuel =
      let not_due : ltb m.time_send (env.time s.stored) ≡ false = ground arith in
      rw
        (
          ne→not_== _ null ne,
          worker_msgs-stuck fuel nbr (env.time s.stored) nbr.msg_to_send.first s node m ne holds
              waits not_due,
        )
        refl
