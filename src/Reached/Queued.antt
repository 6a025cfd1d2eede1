-- ===== src/Reached/Queued.antt =====
-- add_msg and rm_n_msg in a silent state.
use s6_projet_reseau.Common.{Bool, ℕ, zero, suc, ◌≡◌, refl, Bool-cases, true, false, inl, inr}
use s6_projet_reseau.Common.Run.{ok}
use s6_projet_reseau.Common.Holds.{holds_fault, Holds, holds, holds_blocked, Holds-bind}
use s6_projet_reseau.Store.{null, Heap}
use s6_projet_reseau.Dllist.{Dllist, dllist_is_empty, dllist_pop_back}
use s6_projet_reseau.Wire.Types.{DataBody}
use s6_projet_reseau.Shared.{no_locks, unlock, Env, App, lock, get_msg_map, get_msg_list}
use s6_projet_reseau.MsgList.{is_in_msg_list, put_stored, add_msg, rm_msg, rm_n_msg, rm_rounds}
use s6_projet_reseau.Reached.Silent.{IsSilent, StaysSilent}
use s6_projet_reseau.Reached.Entries.{get_msg_map-StaysSilent, get_msg_list-StaysSilent}

dllist_pop_back-nothing :
    (l : Dllist) (h : Heap) → l.first ≡ null → dllist_pop_back l h ≡ ok ((null, l), h)
unfolding dllist_pop_back dllist_is_empty
dllist_pop_back-nothing l h e = rw e refl

module _ {M D : Type 0} (env : Env M D) where
  -- The mutex of the list of messages is held.
  abbrev IsHeld : App M D → Type 0
  IsHeld s = s.locks.list_held ≡ true

  get_msg_list-blocked :
      {P : Dllist × App M D → Type 0} (s : App M D) → IsHeld s → Holds P (get_msg_list env s)
  unfolding get_msg_list lock
  get_msg_list-blocked s held = rw held holds_blocked

  get_msg_list-IsHeld :
      (s : App M D)
      → IsSilent env no_locks s
      → Holds (λ r. (r.0.first ≡ null) × IsHeld r.1) (get_msg_list env s)
  unfolding get_msg_list lock
  get_msg_list-IsHeld s silent = elim (Bool-cases s.locks.list_held) [
    | inl e ↦ rw e holds_blocked
    | inr e ↦ rw e (holds (silent.list_empty, refl))
  ]

  get_msg_map-IsHeld : (s : App M D) → IsHeld s → Holds (λ r. IsHeld r.1) (get_msg_map env s)
  unfolding get_msg_map lock
  get_msg_map-IsHeld s held = elim (Bool-cases s.locks.map_held) [
    | inl e ↦ rw e holds_blocked
    | inr e ↦ rw e (holds held)
  ]

  is_in_msg_list-IsHeld :
      (b : DataBody) (s : App M D)
      → IsSilent env no_locks s
      → Holds (λ r. (r.0 ≡ false) × IsHeld r.1) (is_in_msg_list env b s)
  unfolding is_in_msg_list
  is_in_msg_list-IsHeld b s silent =
      Holds-bind (get_msg_list-IsHeld s silent)
        λ (l, t) (first, held). rw first (holds (refl, held))

  -- add_msg takes the mutex of the list, which it holds.
  pub add_msg-StaysSilent :
      (b : DataBody) (s : App M D)
      → StaysSilent env no_locks no_locks (λ _. Unit {0}) s (add_msg env b s)
  unfolding add_msg put_stored
  add_msg-StaysSilent b s silent =
      Holds-bind (is_in_msg_list-IsHeld b s silent) λ (there, t) (e, held). rw e (
        Holds-bind (get_msg_map-IsHeld _ held)
          λ r held'. Holds-bind (get_msg_list-blocked _ held') λ r h. h)

  -- rm_msg releases the mutex of the list twice.
  rm_msg-Holds :
      {P : Bool × App M D → Type 0} (s : App M D) → IsSilent env no_locks s → Holds P (rm_msg env s)
  unfolding rm_msg unlock
  rm_msg-Holds s silent = Holds-bind (get_msg_list-StaysSilent env s silent) λ (l, t) (kept, first).
      Holds-bind (get_msg_map-StaysSilent env t kept)
        λ (m, u) (kept, _). rw (dllist_pop_back-nothing l u.heap first, kept.locks_are) holds_fault

  pub rm_n_msg-StaysSilent :
      (n : ℕ) (s : App M D) → StaysSilent env no_locks no_locks (λ _. Unit {0}) s (rm_n_msg env n s)
  unfolding rm_n_msg rm_rounds
  rm_n_msg-StaysSilent zero s silent = holds (silent, tt)
  rm_n_msg-StaysSilent (suc n) s silent = Holds-bind (rm_msg-Holds s silent) λ r h. h
