-- ===== src/Reached/Entries.antt =====
-- What the mutexes, the shared globals and the entries of neighbours do in a silent state.
use s6_projet_reseau.Common.{
  ap, Bool, ◌∷◌, true, false, ℕ, ◌≡◌, refl, Bool-cases, inl, inr, Option, none, some, List,
}
use s6_projet_reseau.Common.Run
use s6_projet_reseau.Common.Run.{Run, ok, fault}
use s6_projet_reseau.Common.Holds.{Holds, holds, holds_fault, holds_blocked, Holds-bind}
use s6_projet_reseau.Store.{null}
use s6_projet_reseau.Dllist.{Dllist, new_dllist}
use s6_projet_reseau.Wire.Types.{Sockaddr}
use s6_projet_reseau.Wire.Host.{ByteOrder}
use s6_projet_reseau.Neighbours.{
  Key, NeighbourEntry, MapLib, IsMapLib, new_neighbour_entry, entry_key, map_add_neighbour_entry,
  map_pop_neighbour, map_transfer_neighbour,
}
use s6_projet_reseau.Shared
use s6_projet_reseau.Shared.{
  Locks, Action, acquire, release, set_lock, Lock, Env, App, cur_of, pot_of, msg_map_of,
  msg_list_of, lock, unlock, get_cur_neighbours, get_pot_neighbours, get_msg_map, get_msg_list,
}
use s6_projet_reseau.Reached.Silent.{
  IsSilent, IsIdleMap, map_set-IsIdleMap, map_remove-IsIdleMap, StaysSilent,
}

pub new_neighbour_entry-idle : (p : Sockaddr) → (new_neighbour_entry p).msg_to_send.first ≡ null
unfolding new_neighbour_entry new_dllist
new_neighbour_entry-idle p = refl

module _ {M : Type 0} (lib : MapLib (Option NeighbourEntry) M) (laws : IsMapLib lib)
    (order : ByteOrder) (decimal : ℕ → List ℕ) where
  -- No message waits for the neighbour of an entry.
  abbrev pub IsIdleEntry : Option NeighbourEntry → Type 0
  IsIdleEntry none = Unit
  IsIdleEntry (some e) = e.msg_to_send.first ≡ null

  pub map_add_neighbour_entry-IsIdleMap :
      (m : M) (e : NeighbourEntry)
      → IsIdleMap lib m
      → e.msg_to_send.first ≡ null
      → Holds (λ r. IsIdleMap lib r.1) (map_add_neighbour_entry lib order decimal m e)
  unfolding map_add_neighbour_entry
  map_add_neighbour_entry-IsIdleMap m e idle first =
      by_entry (lib.map_get m (entry_key lib order decimal e))
    where
      by_entry :
          (o : Option (Option NeighbourEntry))
          → Holds
              (λ (r : ℕ × M). IsIdleMap lib r.1)
              (elim o [
                | some entry ↦ fault
                | none ↦ ok (1, lib.map_set m (entry_key lib order decimal e) (some e))
              ])
      by_entry none = holds (map_set-IsIdleMap lib laws m _ e idle first)
      by_entry (some entry) = holds_fault

  map_pop_neighbour-IsIdleMap :
      (m : M) (key : Key)
      → IsIdleMap lib m
      → Holds (λ r. IsIdleEntry r.0 × IsIdleMap lib r.1) (map_pop_neighbour lib order decimal m key)
  unfolding map_pop_neighbour
  map_pop_neighbour-IsIdleMap m key idle = by_entry (lib.map_get m key) refl
    where
      by_entry :
          (o : Option (Option NeighbourEntry))
          → lib.map_get m key ≡ o
          → Holds
              (λ (r : Option NeighbourEntry × M). IsIdleEntry r.0 × IsIdleMap lib r.1)
              (elim o [
                | none ↦ fault
                | some none ↦ ok (none, m)
                | some (some e) ↦ ok (some e, lib.map_remove m key)
              ])
      by_entry none there = holds_fault
      by_entry (some none) there = holds (tt, idle)
      by_entry (some (some e)) there =
          holds (idle key e there, map_remove-IsIdleMap lib laws m key idle)

  pub map_transfer_neighbour-IsIdleMap :
      (source target : M) (key : Key)
      → IsIdleMap lib source
      → IsIdleMap lib target
      → Holds
          (λ r. IsIdleMap lib r.1 × IsIdleMap lib r.2)
          (map_transfer_neighbour lib order decimal source target key)
  unfolding map_transfer_neighbour
  map_transfer_neighbour-IsIdleMap source target key idle idle' =
      Holds-bind (map_pop_neighbour-IsIdleMap source key idle)
        λ (entry, m) (first, left). by_entry entry m first left
    where
      by_entry :
          (entry : Option NeighbourEntry) (m : M)
          → IsIdleEntry entry
          → IsIdleMap lib m
          → Holds
              (λ (r : ℕ × M × M). IsIdleMap lib r.1 × IsIdleMap lib r.2)
              (elim entry [
                | none ↦ ok (0, m, target)
                | some e ↦
                    Run.◌>>=◌
                      (map_add_neighbour_entry lib order decimal target e)
                      λ r. ok (r.0, m, r.1)
              ])
      by_entry none m first left = holds (left, idle')
      by_entry (some e) m first left =
          Holds-bind (map_add_neighbour_entry-IsIdleMap target e idle' first)
            λ r there. holds (left, there)

module _ {M D : Type 0} (env : Env M D) {l : Locks} where
  locked-IsSilent :
      (k : Lock) (b : Bool) (a : Action) (s : App M D)
      → IsSilent env l s
      → IsSilent env
          (set_lock k b l)
          (record s { locks = set_lock k b s.locks; trace = a ∷ s.trace })
  locked-IsSilent k b a s silent = record {
    cur_idle = silent.cur_idle;
    pot_idle = silent.pot_idle;
    map_empty = silent.map_empty;
    list_empty = silent.list_empty;
    none_shown = silent.none_shown;
    locks_are = ap (set_lock k b) silent.locks_are;
  }

  pub lock-StaysSilent :
      (k : Lock) (s : App M D) → StaysSilent env l (set_lock k true l) (λ _. Unit {0}) s (lock k s)
  unfolding lock
  lock-StaysSilent k s silent = elim (Bool-cases (Shared.holds k s.locks)) [
    | inl e ↦ rw e holds_blocked
    | inr e ↦ rw e (holds (locked-IsSilent k true (acquire k) s silent, tt))
  ]

  pub unlock-StaysSilent :
      (k : Lock) (s : App M D)
      → StaysSilent env l (set_lock k false l) (λ _. Unit {0}) s (unlock k s)
  unfolding unlock
  unlock-StaysSilent k s silent = elim (Bool-cases (Shared.holds k s.locks)) [
    | inl e ↦ rw e (holds (locked-IsSilent k false (release k) s silent, tt))
    | inr e ↦ rw e holds_fault
  ]

  pub get_cur_neighbours-StaysSilent :
      (s : App M D)
      → StaysSilent env l
          (set_lock Lock.cur_neighbours true l)
          (IsIdleMap env.nbr_lib)
          s
          (get_cur_neighbours env s)
  unfolding get_cur_neighbours
  get_cur_neighbours-StaysSilent s silent =
      Holds-bind (lock-StaysSilent Lock.cur_neighbours s silent)
        λ r (kept, _). holds (kept, kept.cur_idle)

  pub get_pot_neighbours-StaysSilent :
      (s : App M D)
      → StaysSilent env l
          (set_lock Lock.pot_neighbours true l)
          (IsIdleMap env.nbr_lib)
          s
          (get_pot_neighbours env s)
  unfolding get_pot_neighbours
  get_pot_neighbours-StaysSilent s silent =
      Holds-bind (lock-StaysSilent Lock.pot_neighbours s silent)
        λ r (kept, _). holds (kept, kept.pot_idle)

  pub get_msg_map-StaysSilent :
      (s : App M D)
      → StaysSilent env l (set_lock Lock.msg_map true l) (λ _. Unit {0}) s (get_msg_map env s)
  unfolding get_msg_map
  get_msg_map-StaysSilent s silent =
      Holds-bind (lock-StaysSilent Lock.msg_map s silent) λ r (kept, _). holds (kept, tt)

  pub get_msg_list-StaysSilent :
      (s : App M D)
      → StaysSilent env l
          (set_lock Lock.msg_list true l)
          (λ (l : Dllist). l.first ≡ null)
          s
          (get_msg_list env s)
  unfolding get_msg_list
  get_msg_list-StaysSilent s silent =
      Holds-bind (lock-StaysSilent Lock.msg_list s silent)
        λ r (kept, _). holds (kept, kept.list_empty)
