-- ===== src/Reached/Worked.antt =====
-- The worker in a silent state.
use s6_projet_reseau.Common.{ℕ, ◌≡◌, refl, Option, none, some, List, [], ◌∷◌}
use s6_projet_reseau.Common.Run
use s6_projet_reseau.Common.Run.{Run, ok, fault}
use s6_projet_reseau.Common.Holds.{Holds-option, Holds, holds, holds_fault, Holds-bind}
use s6_projet_reseau.Store.{null}
use s6_projet_reseau.Neighbours.{Key, NeighbourEntry, IsMapLib}
use s6_projet_reseau.Connect.{send_go_away}
use s6_projet_reseau.Shared.{Act, Locks, no_locks, Lock, Env, App, cur_of, pot_of}
use s6_projet_reseau.Worker.{retire, next_key, worker_iter_nbr, worker_pass}
use s6_projet_reseau.Worker.Retire.{worker_iter_msg-idle}
use s6_projet_reseau.Reached.Silent.{IsSilent, StaysSilent}
use s6_projet_reseau.Reached.Entries.{
  unlock-StaysSilent, get_cur_neighbours-StaysSilent, get_pot_neighbours-StaysSilent,
  get_msg_map-StaysSilent, get_msg_list-StaysSilent,
}
use s6_projet_reseau.Reached.Actions.{
  from_run-StaysSilent, on_net-StaysSilent, put_cur-IsSilent, put_pot-IsSilent, transfer-IsIdleMap,
}

module _ {M D : Type 0} (env : Env M D) where
  module _ (laws : IsMapLib env.nbr_lib) where
    retire-StaysSilent :
        {l : Locks}
        → (fuel : ℕ) (key : Key) (e : NeighbourEntry) (s : App M D) → e.msg_to_send.first ≡ null
        → StaysSilent env l l (λ _. Unit {0}) s (retire env fuel key e s)
    unfolding retire
    retire-StaysSilent fuel key e s first silent = rw (worker_iter_msg-idle env fuel e s first) (
        Holds-bind (on_net-StaysSilent env (send_go_away env.machine env.accepts e.addr) s silent)
          λ (_, t) (kept, _).
            Holds-bind
              (from_run-StaysSilent env t
                (transfer-IsIdleMap env laws (cur_of env t) (pot_of env t) key kept.cur_idle
                  kept.pot_idle)
                kept)
              λ (r, u) (kept, (left, there)). holds (
                put_pot-IsSilent env r.2 (record u { g_cur_neighbours = some r.1 })
                    (put_cur-IsSilent env r.1 u kept left) there,
                tt,
              ))

    next_key-StaysSilent :
        {l : Locks} (key : Key) (rest : Act (App M D) (Unit {0})) (s : App M D)
        → StaysSilent env l l (λ _. Unit {0}) s (rest s)
        → StaysSilent env l l (λ _. Unit {0}) s (next_key env key rest s)
    unfolding next_key
    next_key-StaysSilent key rest s next silent =
        Holds-option (env.nbr_lib.map_get (cur_of env s) key) (λ _. fault) (λ _. rest) s
          (λ _. holds_fault) λ _ _. next silent

    worker_iter_nbr-StaysSilent :
        {l : Locks}
        → (fuel : ℕ) (keys : List Key) (s : App M D)
        → StaysSilent env l l (λ _. Unit {0}) s (worker_iter_nbr env fuel keys s)
    unfolding worker_iter_nbr
    worker_iter_nbr-StaysSilent fuel [] s silent = holds (silent, tt)
    worker_iter_nbr-StaysSilent {l} fuel (key ∷ keys) s silent =
        by_entry (env.nbr_lib.map_get (cur_of env s) key) refl
          (λ t. worker_iter_nbr-StaysSilent fuel keys t)
      where
        by_entry :
            (o : Option (Option NeighbourEntry))
            → env.nbr_lib.map_get (cur_of env s) key ≡ o
            → ((t : App M D)
                → StaysSilent env l l (λ _. Unit {0}) t (worker_iter_nbr env fuel keys t))
            → Holds
                (λ (r : Unit {0} × App M D). IsSilent env l r.1 × Unit {0})
                (elim o [
                  | none ↦ ok (tt, s)
                  | some none ↦ fault
                  | some (some e) ↦
                      Run.◌>>=◌
                        (retire env fuel key e s)
                        λ r. next_key env key (worker_iter_nbr env fuel keys) r.1
                ])
        by_entry none there next = holds (silent, tt)
        by_entry (some none) there next = holds_fault
        by_entry (some (some e)) there next =
            Holds-bind (retire-StaysSilent fuel key e s (silent.cur_idle key e there) silent)
              λ (_, t) (kept, _). next_key-StaysSilent key _ t (next t) kept

    pub worker_pass-StaysSilent :
        (fuel : ℕ) (s : App M D)
        → StaysSilent env no_locks no_locks (λ _. Unit {0}) s (worker_pass env fuel s)
    unfolding worker_pass
    worker_pass-StaysSilent fuel s silent =
        Holds-bind (get_cur_neighbours-StaysSilent env s silent) λ (cur, t) (kept, _).
          Holds-bind (get_pot_neighbours-StaysSilent env t kept) λ (pot, t) (kept, _).
            Holds-bind (get_msg_list-StaysSilent env t kept) λ (l, t) (kept, _).
              Holds-bind (get_msg_map-StaysSilent env t kept) λ (m, t) (kept, _).
                Holds-bind (worker_iter_nbr-StaysSilent fuel (env.nbr_lib.map_keys cur) t kept)
                  λ (_, t) (kept, _).
                    Holds-bind (unlock-StaysSilent env Lock.cur_neighbours t kept)
                      λ (_, t) (kept, _).
                        Holds-bind (unlock-StaysSilent env Lock.pot_neighbours t kept)
                          λ (_, t) (kept, _).
                            Holds-bind (unlock-StaysSilent env Lock.msg_list t kept)
                              λ (_, t) (kept, _). unlock-StaysSilent env Lock.msg_map t kept
