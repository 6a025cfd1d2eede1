-- ===== src/MsgList/Queue.antt =====
-- The loop of add_msg over the neighbours. It pushes a node of type DLL_INT, and the lists of the
-- neighbours are of type DLL_MSG.
use s6_projet_reseau.Common.{
  ◌≡◌, ◌≢◌, refl, sym, ◌∙◌, Bool, true, false, ◌||◌, inl, inr, Option, some, List, [], ◌∷◌, ◌==◌,
  if◌then◌else◌, All, All-mono, none, ne→not_==,
}
use s6_projet_reseau.Common.Run.{ok}
use s6_projet_reseau.Store.{Ptr, null, NodeType, Heap, Fresh}
use s6_projet_reseau.Dllist.{Dllist, dllist_push_front}
use s6_projet_reseau.Dllist.Seg.{Items}
use s6_projet_reseau.Wire.Types.{DataBody}
use s6_projet_reseau.Neighbours.{Key, NeighbourEntry, IsMapLib, new_dllist_msg}
use s6_projet_reseau.Shared.{Stored, waiting_msg, Env, App, cur_of}
use s6_projet_reseau.MsgList.{put_stored, push_front, entry_of, queue_msg, queue_msgs}
use s6_projet_reseau.MsgList.Known.{Keys}
use s6_projet_reseau.MsgList.Text.{key-cases}

-- An address that is not the data of one of the nodes.
abbrev pub Apart : Ptr → Items → Type 0
Apart p [] = Unit
Apart p ((q, d) ∷ xs) = (d ≢ p) × Apart p xs

abbrev pub with_stored : (Ptr → Option Stored) → Ptr → Stored → Ptr → Option Stored
with_stored stored p v q = if q == p then some v else stored q

pub Keys-with_stored :
    (stored : Ptr → Option Stored) (p : Ptr) (v : Stored) (xs : Items) (ks : List Key)
    → Apart p xs
    → Keys stored xs ks
    → Keys (with_stored stored p v) xs ks
Keys-with_stored stored p v [] [] apart keys = tt
Keys-with_stored stored p v [] (k ∷ ks) apart keys = keys
Keys-with_stored stored p v (x ∷ xs) [] apart keys = keys
Keys-with_stored stored p v ((q, d) ∷ xs) (k ∷ ks) apart keys =
    (rw (ne→not_== d p apart.0) keys.0, Keys-with_stored stored p v xs ks apart.1 keys.1)

or_true : (b : Bool) → (b || true) ≡ true
or_true true = refl
or_true false = refl

push_refused :
    (a : Fresh) (l : Dllist) (p : Ptr) (h : Heap)
    → l.type ≡ NodeType.msg
    → dllist_push_front a (some l) NodeType.int p h ≡ ok ((false, some l), h)
unfolding dllist_push_front
push_refused a l p h e = rw (e, or_true (p == null)) refl

module _ {M D : Type 0} (env : Env M D) where
  -- The key has an entry, of which `p` holds.
  abbrev pub HasEntry : (NeighbourEntry → Type 0) → M → Key → Type 0
  HasEntry p m k = (e : NeighbourEntry) × (env.nbr_lib.map_get m k ≡ some (some e)) × p e

  -- The key has an entry, whose list is of messages.
  abbrev pub IsNeighbour : M → Key → Type 0
  IsNeighbour m k = HasEntry (λ e. e.msg_to_send.type ≡ NodeType.msg) m k

  pub entry_of-there :
      (m : M) (key : Key) (e : NeighbourEntry)
      → env.nbr_lib.map_get m key ≡ some (some e)
      → entry_of env m key ≡ ok e
  unfolding entry_of
  entry_of-there m key e there = rw (there, entry_of) refl

  -- An entry is put where it is.
  pub set_same :
      (m : M) (key : Key) (e : NeighbourEntry)
      → IsMapLib env.nbr_lib
      → env.nbr_lib.map_get m key ≡ some (some e)
      → (k : Key)
      → env.nbr_lib.map_get (env.nbr_lib.map_set m key (some e)) k ≡ env.nbr_lib.map_get m k
  set_same m key e laws there k = elim (key-cases k key) [
    | inl p ↦ rw p (laws.get-set m key (some e) ∙ sym there)
    | inr ne ↦ laws.get-set_ne m key k (some e) ne
  ]

  module _ (p : NeighbourEntry → Type 0) where
    pub All-same :
        {m m' : M}
        → ((k : Key) → env.nbr_lib.map_get m' k ≡ env.nbr_lib.map_get m k)
        → (keys : List Key) → All (HasEntry p m) keys
        → All (HasEntry p m') keys
    All-same same [] all = tt
    All-same same (k ∷ keys) ((e, there, holds), all) =
        ((e, same k ∙ there, holds), All-same same keys all)

    -- The keys that the iterator reaches are those of entries.
    pub keys-HasEntry :
        (m : M)
        → IsMapLib env.nbr_lib
        → ((k : Key) → env.nbr_lib.map_get m k ≢ none → HasEntry p m k)
        → All (HasEntry p m) (env.nbr_lib.map_keys m)
    keys-HasEntry m laws entries =
        All-mono (λ k v. entries k (present k v)) (env.nbr_lib.map_keys m) (laws.keys_present m)
      where
        present :
            (k : Key)
            → (v : Option NeighbourEntry) × (env.nbr_lib.map_get m k ≡ some v)
            → env.nbr_lib.map_get m k ≢ none
        present k (v, there) not_there = cc

module _ {M D : Type 0} (env : Env M D) (msg_key : Key) (b : DataBody) where
  -- The objects after the round for one neighbour: the message to send is there, in no list.
  abbrev after_queue : (Ptr → Option Stored) → Ptr → Option Stored
  after_queue stored =
      let p = env.new_object stored in
      let at : Ptr → Option Stored =
        with_stored stored p
          (waiting_msg (new_dllist_msg (env.random stored) (env.time stored) msg_key b)) in
      at

  push_front-refused :
      (l : Dllist) (p : Ptr) (s : App M D)
      → l.type ≡ NodeType.msg
      → push_front env l NodeType.int p s ≡ ok (l, s)
  unfolding push_front
  push_front-refused l p s e = rw (push_refused (env.malloc s.heap) l p s.heap e) refl

  queue_msg-refused :
      (s : App M D) (key : Key) (e : NeighbourEntry)
      → env.nbr_lib.map_get (cur_of env s) key ≡ some (some e)
      → e.msg_to_send.type ≡ NodeType.msg
      → queue_msg env msg_key b key s
        ≡ ok (
          tt,
          record s {
            stored = after_queue s.stored;
            g_cur_neighbours = some (env.nbr_lib.map_set (cur_of env s) key (some e));
          },
        )
  unfolding queue_msg put_stored
  queue_msg-refused s key e there type =
      rw
        (
          entry_of-there env (cur_of env s) key e there,
          push_front-refused e.msg_to_send (env.new_object s.stored) _ type,
        )
        refl

  -- The loop changes no neighbour, and no key of a list that the new objects are apart from.
  pub queue_msgs-refused :
      (s : App M D) (xs : Items) (ks : List Key)
      → IsMapLib env.nbr_lib
      → ((stored : Ptr → Option Stored) → Keys stored xs ks → Apart (env.new_object stored) xs)
      → (stored : Ptr → Option Stored) (m : M) (keys : List Key) → Keys stored xs ks
      → All (IsNeighbour env m) keys
      → (r : (Ptr → Option Stored) × M) × (queue_msgs env keys msg_key b
            (record s { stored = stored; g_cur_neighbours = some m })
          ≡ ok (tt, record s { stored = r.0; g_cur_neighbours = some r.1 }))
        × ((k : Key) → env.nbr_lib.map_get r.1 k ≡ env.nbr_lib.map_get m k)
        × Keys r.0 xs ks
  unfolding queue_msgs
  queue_msgs-refused s xs ks laws apart stored m [] known all =
      ((stored, m), refl, λ k. refl, known)
  queue_msgs-refused s xs ks laws apart stored m (key ∷ keys) known ((e, there, type), all) =
      let s' : App M D = record s { stored = stored; g_cur_neighbours = some m } in
      let (r, run, same, known') =
        queue_msgs-refused s xs ks laws apart (after_queue stored)
          (env.nbr_lib.map_set m key (some e)) keys
          (Keys-with_stored stored _ _ xs ks (apart stored known) known)
          (All-same env _ (set_same env m key e laws there) keys all) in
      (
        r,
        rw (queue_msg-refused s' key e there type) run,
        λ k. same k ∙ set_same env m key e laws there k,
        known',
      )
