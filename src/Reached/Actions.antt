-- ===== src/Reached/Actions.antt =====
-- The actions that the handlers and the worker are made of, in a silent state.
use s6_projet_reseau.Common.{some}
use s6_projet_reseau.Common.Run
use s6_projet_reseau.Common.Run.{Run, ok, fault}
use s6_projet_reseau.Common.Holds.{Holds, holds, Holds-bind, any}
use s6_projet_reseau.Store.{Cmd}
use s6_projet_reseau.Wire.Types.{Sockaddr}
use s6_projet_reseau.Wire.Sbuff.{Sbuff}
use s6_projet_reseau.Neighbours.{Key, IsMapLib, new_neighbour_entry}
use s6_projet_reseau.Connect.{Net, udp_send}
use s6_projet_reseau.Shared.{Locks, Env, App, from_run, on_heap, on_net}
use s6_projet_reseau.Process.{add_entry, transfer}
use s6_projet_reseau.Reached.Silent.{IsIdleMap, IsSilent, StaysSilent}
use s6_projet_reseau.Reached.Entries.{
  new_neighbour_entry-idle, map_add_neighbour_entry-IsIdleMap, map_transfer_neighbour-IsIdleMap,
}

module _ {M D : Type 0} (env : Env M D) where
  pub from_run-StaysSilent :
      {l : Locks}
      → {A : Type 0} {P : A → Type 0} {r : Run A} (s : App M D) → Holds P r
      → StaysSilent env l l P s (from_run r s)
  from_run-StaysSilent s h silent = Holds-bind h λ a p. holds (silent, p)

  pub on_net-StaysSilent :
      {l : Locks}
      → (m : Net → Run Net) (s : App M D) → StaysSilent env l l (λ _. Unit {0}) s (on_net m s)
  on_net-StaysSilent m s silent = Holds-bind (any (m s.net)) λ net _. holds (silent, tt)

  pub udp_send-StaysSilent :
      {l : Locks}
      → (sb : Sbuff) (p : Sockaddr) (s : App M D)
      → StaysSilent env l l
          (λ _. Unit {0})
          s
          (Run.◌>>=◌ (udp_send env.accepts p sb s.net) λ r. ok (r.0, record s { net = r.1 }))
  udp_send-StaysSilent sb p s silent =
      Holds-bind (any (udp_send env.accepts p sb s.net)) λ r _. holds (silent, tt)

  pub on_heap-StaysSilent :
      {l : Locks}
      → {A : Type 0} (m : Cmd A) (s : App M D) → StaysSilent env l l (λ _. Unit {0}) s (on_heap m s)
  on_heap-StaysSilent m s silent = Holds-bind (any (m s.heap)) λ r _. holds (silent, tt)

  pub put_cur-IsSilent :
      {l : Locks}
      → (m : M) (s : App M D) → IsSilent env l s
      → IsIdleMap env.nbr_lib m
      → IsSilent env l (record s { g_cur_neighbours = some m })
  put_cur-IsSilent m s silent idle = record {
    cur_idle = idle;
    pot_idle = silent.pot_idle;
    map_empty = silent.map_empty;
    list_empty = silent.list_empty;
    none_shown = silent.none_shown;
    locks_are = silent.locks_are;
  }

  pub put_pot-IsSilent :
      {l : Locks}
      → (m : M) (s : App M D) → IsSilent env l s
      → IsIdleMap env.nbr_lib m
      → IsSilent env l (record s { g_pot_neighbours = some m })
  put_pot-IsSilent m s silent idle = record {
    cur_idle = silent.cur_idle;
    pot_idle = idle;
    map_empty = silent.map_empty;
    list_empty = silent.list_empty;
    none_shown = silent.none_shown;
    locks_are = silent.locks_are;
  }

  module _ (laws : IsMapLib env.nbr_lib) where
    pub add_entry-IsIdleMap :
        (m : M) (p : Sockaddr)
        → IsIdleMap env.nbr_lib m
        → Holds (λ r. IsIdleMap env.nbr_lib r.1) (add_entry env m (new_neighbour_entry p))
    add_entry-IsIdleMap m p idle =
        map_add_neighbour_entry-IsIdleMap env.nbr_lib laws env.machine.order env.decimal m _ idle
          (new_neighbour_entry-idle p)

    pub transfer-IsIdleMap :
        (source target : M) (key : Key)
        → IsIdleMap env.nbr_lib source
        → IsIdleMap env.nbr_lib target
        → Holds
            (λ r. IsIdleMap env.nbr_lib r.1 × IsIdleMap env.nbr_lib r.2)
            (transfer env source target key)
    transfer-IsIdleMap =
        map_transfer_neighbour-IsIdleMap env.nbr_lib laws env.machine.order env.decimal
