-- ===== src/MsgList/Known.antt =====
-- is_in_msg_list, and add_msg where it adds nothing.
use s6_projet_reseau.Common.{
  ℕ, zero, suc, ◌+◌, ◌<◌, ◌≡◌, refl, ap, ◌∙◌, Bool, true, false, ◌||◌, if◌then◌else◌, Option, none,
  some, List, [], ◌∷◌, length, arith, ne→not_==,
}
use s6_projet_reseau.Common.Run.{Run, ok, blocked}
use s6_projet_reseau.Store.{Ptr, null, NodeType, Heap}
use s6_projet_reseau.Store.Steps.{load-ok}
use s6_projet_reseau.Dllist.{Dllist}
use s6_projet_reseau.Dllist.Seg.{Items, first_of, Distinct, Seg}
use s6_projet_reseau.Dllist.Rep.{IsDllist}
use s6_projet_reseau.Wire.Types.{DataBody}
use s6_projet_reseau.Neighbours.{Key}
use s6_projet_reseau.Shared.{
  Stored, key_string, no_locks, Env, App, Act, pure, lock, unlock, msg_list_of, get_msg_list,
  get_msg_map,
}
use s6_projet_reseau.Threads.{Event, event_locks, rev_onto}
use s6_projet_reseau.MsgList.{
  same_text, place_next, scan, is_key, data_key, is_in_msg_list, put_stored, add_msg,
}
use s6_projet_reseau.MsgList.Scan.{first_not_null}

-- The data of the nodes are these keys.
abbrev pub Keys : (Ptr → Option Stored) → Items → List Key → Type 0
Keys stored [] [] = Unit
Keys stored [] (k ∷ ks) = ⊥
Keys stored (x ∷ xs) [] = ⊥
Keys stored ((p, d) ∷ xs) (k ∷ ks) = (stored d ≡ some (key_string k)) × Keys stored xs ks

abbrev pub is_among : Key → List Key → Bool
is_among key [] = false
is_among key (k ∷ ks) = same_text k key || is_among key ks

-- What the walk for a key finds is an index, if the key is there.
abbrev pub IsFound : Bool → Option ℕ → Type 0
IsFound true none = ⊥
IsFound true (some i) = Unit
IsFound false none = Unit
IsFound false (some i) = ⊥

is_key-key_string :
    (stored : Ptr → Option Stored) (key k : Key) (p : Ptr)
    → stored p ≡ some (key_string k)
    → is_key stored key p ≡ ok (same_text k key)
unfolding is_key
is_key-key_string stored key k p e = rw (e, is_key) refl

scan-key :
    (h : Heap) (fuel : ℕ) (stored : Ptr → Option Stored) (key : Key) (t : NodeType) (before : Ptr)
    (xs : Items) (ks : List Key) (i : ℕ)
    → Seg h.cell t before xs null
    → Distinct xs
    → Keys stored xs ks
    → length xs < fuel
    → (r : Option ℕ) × (scan h fuel (is_key stored key) place_next (first_of xs null) i ≡ ok r)
      × IsFound (is_among key ks) r
unfolding scan
scan-key h zero stored key t before xs ks i s k d lt = absurd (omega arith)
scan-key h (suc fuel) stored key t before [] [] i s k d lt = (none, refl, tt)
scan-key h (suc fuel) stored key t before [] (x ∷ ks) i s k d lt = elim d [ ]
scan-key h (suc fuel) stored key t before (x ∷ xs) [] i s k d lt = elim d [ ]
scan-key h (suc fuel) stored key t before ((p, e) ∷ xs) (x ∷ ks) i s k d lt =
    rw (ne→not_== p null k.0, load-ok h p _ k.0 s.0, is_key-key_string stored key x e d.0)
      (hit (same_text x key) _
        (scan-key h fuel stored key t p xs ks (i + 1) s.1 k.2 d.1 (omega arith)))
  where
    hit :
        (b : Bool) (rest : Run (Option ℕ))
        → (r : Option ℕ) × (rest ≡ ok r) × IsFound (is_among key ks) r
        → (r : Option ℕ) × ((if b then ok (some i) else rest) ≡ ok r)
          × IsFound (b || is_among key ks) r
    hit true rest p = (some i, refl, tt)
    hit false rest p = p

scan_list-key :
    (h : Heap) (l : Dllist) (stored : Ptr → Option Stored) (key : Key) (xs : Items) (ks : List Key)
    → (is : IsDllist h l xs) → is.after ≡ null
    → Keys stored xs ks
    → (r : Option ℕ) × (scan h (l.size + 1) (is_key stored key) place_next l.first 0 ≡ ok r)
      × IsFound (is_among key ks) r
scan_list-key h l stored key xs ks is ends keys =
    let (r, e, found) =
      scan-key h (l.size + 1) stored key l.type is.before xs ks 0 (rw ends at is.chain) is.distinct
        keys (omega (arith, is.size)) in
    (r, ap (λ a. scan h (l.size + 1) (is_key stored key) place_next a 0) is.first ∙ e, found)

-- What is_in_msg_list leaves on a list that is not empty: the list exists, and its mutex was taken and
-- released.
abbrev pub with_list : {M D : Type 0} → Env M D → App M D → App M D
with_list env s = record s {
  g_msg_list = some (msg_list_of env s);
  locks = no_locks;
  trace = rev_onto (event_locks Event.repeated) s.trace;
}

module _ {M D : Type 0} (env : Env M D) (b : DataBody) (s : App M D) where
  -- is_in_msg_list with no mutex held, on a list that is not empty, whose last node has no next
  -- node, and whose data are keys: the result is whether the key of the message is one of them, the
  -- mutex of the list was taken and is free again, and nothing else changes.
  pub is_in_msg_list-is_among :
      (x : Ptr × Ptr) (xs : Items) (ks : List Key)
      → (is : IsDllist s.heap (msg_list_of env s) (x ∷ xs)) → is.after ≡ null
      → Keys s.stored (x ∷ xs) ks
      → s.locks ≡ no_locks
      → is_in_msg_list env b s ≡ ok (is_among (data_key env b) ks, with_list env s)
  unfolding is_in_msg_list get_msg_list lock unlock
  is_in_msg_list-is_among x xs ks is ends keys free =
      let (r, e, found) =
        scan_list-key s.heap (msg_list_of env s) s.stored (data_key env b) (x ∷ xs) ks is ends
          keys in
      rw (free, first_not_null [] x.0 x.1 xs is, e) (known_or_not _ r found)
    where
      known_or_not :
          (known : Bool) (r : Option ℕ)
          → IsFound known r
          → (elim r as (λ _. Act (App M D) Bool) [ none ↦ pure false | some index ↦ pure true ])
              (with_list env s)
            ≡ ok (known, with_list env s)
      known_or_not true none f = elim f [ ]
      known_or_not true (some i) f = refl
      known_or_not false none f = refl
      known_or_not false (some i) f = elim f [ ]

  -- add_msg with no mutex held and an empty list, as it is at the start: the thread waits for ever,
  -- since is_in_msg_list returns with the mutex of the list held and add_msg takes it again.
  pub add_msg-first :
      (msg_list_of env s).first ≡ null → s.locks ≡ no_locks → add_msg env b s ≡ blocked
  unfolding add_msg is_in_msg_list get_msg_list get_msg_map lock put_stored
  add_msg-first e free = rw (free, e) refl
