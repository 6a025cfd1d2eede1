-- ===== src/MsgList/Add.antt =====
-- add_msg on a list that is not empty.
use s6_projet_reseau.Common.{◌≡◌, ◌≢◌, refl, Bool, true, false, some, List, ◌∷◌}
use s6_projet_reseau.Common.Run
use s6_projet_reseau.Common.Run.{Run, ok}
use s6_projet_reseau.Store.{Ptr, null}
use s6_projet_reseau.Dllist.{Dllist}
use s6_projet_reseau.Dllist.Seg.{Items}
use s6_projet_reseau.Dllist.Rep.{IsDllist}
use s6_projet_reseau.Dllist.Added.{Leaves}
use s6_projet_reseau.Wire.Types.{DataBody}
use s6_projet_reseau.Neighbours.{Key}
use s6_projet_reseau.Shared.{no_locks, Env, App, cur_of, pot_of, msg_list_of, msg_map_of}
use s6_projet_reseau.Threads.{add_msg_locks, rev_onto}
use s6_projet_reseau.MsgList.{data_key, add_msg}
use s6_projet_reseau.Gui.{Gui}
use s6_projet_reseau.MsgList.Known.{Keys, is_among, with_list, is_in_msg_list-is_among}

module _ {M D : Type 0} (env : Env M D) where
  module _ (b : DataBody) (s : App M D) where
    -- The list of messages after add_msg.
    abbrev pub items_after : Items → Items
    items_after xs = ((env.malloc s.heap).address, env.new_object s.stored) ∷ xs

    pub record IsAdded (xs : Items) (ks : List Key) (g : Gui) (r : Bool × App M D) : Type 0 where
      pub added : r.0 ≡ true
      pub unlocked : r.1.locks ≡ no_locks
      pub traced : r.1.trace ≡ rev_onto add_msg_locks s.trace
      pub in_map : env.data_lib.map_get (msg_map_of env r.1) (data_key env b) ≡ some b
      pub others :
          (k : Key)
          → k ≢ data_key env b
          → env.data_lib.map_get (msg_map_of env r.1) k ≡ env.data_lib.map_get (msg_map_of env s) k
      pub list : Leaves s.heap (items_after xs) (items_after xs) (msg_list_of env r.1) r.1.heap
      pub keys : Keys r.1.stored (items_after xs) (data_key env b ∷ ks)
      pub shown : r.1.window ≡ g
      -- No list of a neighbour is changed.
      pub not_queued :
          (k : Key) → env.nbr_lib.map_get (cur_of env r.1) k ≡ env.nbr_lib.map_get (cur_of env s) k
      pub potential_same : pot_of env r.1 ≡ pot_of env s
      pub net_same : r.1.net ≡ s.net

    module _ (x : Ptr × Ptr) (xs : Items) (ks : List Key)
        (is : IsDllist s.heap (msg_list_of env s) (x ∷ xs)) (ends : is.after ≡ null)
        (known : Keys s.stored (x ∷ xs) ks) (free : s.locks ≡ no_locks) where
      -- add_msg of a message whose key is in the list: nothing is added.
      pub add_msg-known :
          is_among (data_key env b) ks ≡ true → add_msg env b s ≡ ok (false, with_list env s)
      unfolding add_msg
      add_msg-known e = rw (is_in_msg_list-is_among env b s x xs ks is ends known free, e) refl
