-- ===== src/Reached.antt =====
-- What the threads do to the state that they share, one operation after the other. An operation that
-- faults or waits for ever leads to no state.
pub mod Silent
pub mod Entries
pub mod Queued
pub mod Actions
pub mod Handled
pub mod Worked
pub mod Always
use s6_projet_reseau.Common.{ℕ, Bool, ◌≡◌, none, List, []}
use s6_projet_reseau.Common.Run.{ok}
use s6_projet_reseau.Store.{Ptr, Heap}
use s6_projet_reseau.Wire.Types.{DataBody}
use s6_projet_reseau.Connect.{Net}
use s6_projet_reseau.Gui.{Gui}
use s6_projet_reseau.Shared.{no_locks, Env, App}
use s6_projet_reseau.MsgList.{add_msg, rm_n_msg}
use s6_projet_reseau.Process.{handlers, add_new_neighbour}
use s6_projet_reseau.Worker.{worker_pass}
use s6_projet_reseau.Server.{Arrival, server_round}

module _ {M D : Type 0} (env : Env M D) where
  -- A round of the server, a pass of the worker, or a call of the window or of main.
  pub data Step : App M D → App M D → Type 0 where
    round :
        {s t : App M D} (a : Arrival)
        → server_round (handlers env) env.machine a s ≡ ok t
        → Step s t
    pass : {s t : App M D} (fuel : ℕ) → worker_pass env fuel s ≡ ok (tt, t) → Step s t
    message :
        {s t : App M D} (b : DataBody) (added : Bool) → add_msg env b s ≡ ok (added, t) → Step s t
    trim : {s t : App M D} (n : ℕ) → rm_n_msg env n s ≡ ok (tt, t) → Step s t
    meet :
        {s t : App M D} (host port : List ℕ)
        → add_new_neighbour env host port s ≡ ok (tt, t)
        → Step s t

  pub data Reaches : App M D → App M D → Type 0 where
    here : {s : App M D} → Reaches s s
    then : {s t u : App M D} → Reaches s t → Step t u → Reaches s u

-- A window that shows no text.
abbrev pub no_texts : Gui
no_texts = record {
  text_view_messages = [];
  entry_message = [];
  title = [];
  label_infos2 = [];
  label_peers = [];
}

-- The state in which the threads start: no global is assigned, and no mutex is held.
abbrev pub at_start : {M D : Type 0} → Heap → Net → App M D
at_start heap net = record {
  heap = heap;
  stored = λ p. none;
  g_cur_neighbours = none;
  g_pot_neighbours = none;
  g_msg_map = none;
  g_msg_list = none;
  locks = no_locks;
  trace = [];
  net = net;
  window = no_texts;
}
