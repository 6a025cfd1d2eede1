-- ===== src/Reached/Silent.antt =====
-- States in which there is no message.
use s6_projet_reseau.Common.{ℕ, ◌≡◌, refl, ◌∙◌, sym, ap, inl, inr, Option, none, some, List, []}
use s6_projet_reseau.Common.Run.{Run}
use s6_projet_reseau.Common.Holds.{Holds}
use s6_projet_reseau.Store.{null, Heap}
use s6_projet_reseau.Dllist.{Dllist, new_dllist}
use s6_projet_reseau.Gui.{Style}
use s6_projet_reseau.Neighbours.{Key, NeighbourEntry, MapLib, IsMapLib}
use s6_projet_reseau.Connect.{Net}
use s6_projet_reseau.Shared.{Locks, no_locks, Env, App, cur_of, pot_of, msg_map_of, msg_list_of}
use s6_projet_reseau.MsgList.Text.{key-cases}
use s6_projet_reseau.Reached.{at_start}

-- No message waits for a neighbour of the map.
abbrev pub IsIdleMap : {M : Type 0} → MapLib (Option NeighbourEntry) M → M → Type 0
IsIdleMap lib m =
    (k : Key) (e : NeighbourEntry) → lib.map_get m k ≡ some (some e) → e.msg_to_send.first ≡ null

module _ {M : Type 0} (lib : MapLib (Option NeighbourEntry) M) (laws : IsMapLib lib) where
  pub map_init-IsIdleMap : IsIdleMap lib lib.map_init
  map_init-IsIdleMap k e there = let absent = laws.get-init k in cc

  pub map_set-IsIdleMap :
      (m : M) (key : Key) (e : NeighbourEntry)
      → IsIdleMap lib m
      → e.msg_to_send.first ≡ null
      → IsIdleMap lib (lib.map_set m key (some e))
  map_set-IsIdleMap m key e idle first k f there = elim (key-cases k key) [
    | inl p ↦
        (let put = laws.get-set m key (some e) in
          let same : some (some f) ≡ some (some e) =
            sym there ∙ ap (lib.map_get (lib.map_set m key (some e))) p ∙ put in
          let same : f ≡ e = cc in ap (λ (g : NeighbourEntry). g.msg_to_send.first) same ∙ first)
    | inr ne ↦ idle k f (sym (laws.get-set_ne m key k (some e) ne) ∙ there)
  ]

  pub map_remove-IsIdleMap :
      (m : M) (key : Key) → IsIdleMap lib m → IsIdleMap lib (lib.map_remove m key)
  map_remove-IsIdleMap m key idle k f there = elim (key-cases k key) [
    | inl p ↦
        (let gone = laws.get-remove m key in
          let absent : lib.map_get (lib.map_remove m key) k ≡ none =
            ap (lib.map_get (lib.map_remove m key)) p ∙ gone in
          cc)
    | inr ne ↦ idle k f (sym (laws.get-remove_ne m key k ne) ∙ there)
  ]

module _ {M D : Type 0} (env : Env M D) where
  pub record HasNoMessage (cur pot : M) (map : D) (list : Dllist) (shown : List (Style × List ℕ))
      (locks l : Locks) : Type 0 where
    pub cur_idle : IsIdleMap env.nbr_lib cur
    pub pot_idle : IsIdleMap env.nbr_lib pot
    pub map_empty : (k : Key) → env.data_lib.map_get map k ≡ none
    pub list_empty : list.first ≡ null
    pub none_shown : shown ≡ []
    pub locks_are : locks ≡ l

  -- The map and the list of messages are empty, no message waits for a neighbour, none was shown, and
  -- the mutexes that are held are those of `l`.
  abbrev pub IsSilent : Locks → App M D → Type 0
  IsSilent l s =
      HasNoMessage (cur_of env s) (pot_of env s) (msg_map_of env s) (msg_list_of env s)
        s.window.text_view_messages s.locks l

  -- An action that leads from silent states to silent ones alone, with a result that satisfies `P`.
  abbrev pub StaysSilent :
      {A : Type 0} → Locks → Locks → (A → Type 0) → App M D → Run (A × App M D) → Type 0
  StaysSilent l l' P s r = IsSilent l s → Holds (λ t. IsSilent l' t.1 × P t.0) r

  pub at_start-IsSilent :
      (heap : Heap) (net : Net)
      → IsMapLib env.nbr_lib
      → IsMapLib env.data_lib
      → IsSilent no_locks (at_start heap net)
  unfolding new_dllist
  at_start-IsSilent heap net nbrs data_laws = record {
    cur_idle = map_init-IsIdleMap env.nbr_lib nbrs;
    pot_idle = map_init-IsIdleMap env.nbr_lib nbrs;
    map_empty = data_laws.get-init;
    list_empty = refl;
    none_shown = refl;
    locks_are = refl;
  }
