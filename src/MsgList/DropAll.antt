-- ===== src/MsgList/DropAll.antt =====
-- rm_n_msg, while no message waits for a neighbour.
use mathlib.Core.Path.{subst}
use s6_projet_reseau.Common.{
  ℕ, zero, suc, ◌+◌, ◌≤◌, ◌<◌, ◌^◌, ◌≡◌, ◌≢◌, refl, sym, ap, ◌∙◌, arith, none, some, false, [], ◌∷◌,
  ◌++◌, length, take, take_all, length-take, All, All-mono,
}
use s6_projet_reseau.Common.Run
use s6_projet_reseau.Common.Run.{ok, Returns, returns}
use s6_projet_reseau.Store.{Ptr, null}
use s6_projet_reseau.Dllist.Seg.{Items, has}
use s6_projet_reseau.Dllist.Sequence.{split_last}
use s6_projet_reseau.Dllist.Rep.{IsDllist, has-append}
use s6_projet_reseau.Dllist.Added.{Leaves}
use s6_projet_reseau.Wire.Types.{DataBody}
use s6_projet_reseau.Neighbours.{Key, IsMapLib}
use s6_projet_reseau.Shared.{
  key_string, no_locks, Env, App, cur_of, pot_of, msg_list_of, msg_map_of,
}
use s6_projet_reseau.MsgList.{rm_rounds, rm_n_msg}
use s6_projet_reseau.MsgList.Scan.{int_next-Counts}
use s6_projet_reseau.MsgList.Queue.{HasEntry}
use s6_projet_reseau.MsgList.Drop.{IsIdle, rm_msg-oldest}

take-take : (k n : ℕ) (xs : Items) → k ≤ n → take k (take n xs) ≡ take k xs
take-take zero n xs le = refl
take-take (suc k) zero xs le = absurd (omega arith)
take-take (suc k) (suc n) [] le = refl
take-take (suc k) (suc n) (x ∷ xs) le = ap (λ ys. x ∷ ys) (take-take k n xs (omega arith))

not-has-front : (q : Ptr) (xs ys : Items) → has q (xs ++ ys) ≡ false → has q xs ≡ false
not-has-front q xs ys out = ground (arith, has-append q xs ys, out)

module _ (P : Ptr × Ptr → Type 0) where
  All-take : (n : ℕ) (xs : Items) → All P xs → All P (take n xs)
  All-take zero xs all = tt
  All-take (suc n) [] all = tt
  All-take (suc n) (x ∷ xs) all = (all.0, All-take n xs all.1)

  All-last : (xs : Items) (x : Ptr × Ptr) → All P (xs ++ (x ∷ [])) → P x
  All-last [] x all = all.0
  All-last (y ∷ xs) x all = All-last xs x all.1

module _ {M D : Type 0} (env : Env M D) where
  -- The element is the key of a message in the map.
  abbrev pub IsKnown : App M D → Ptr × Ptr → Type 0
  IsKnown s x =
      (x.1 ≢ null)
      × (key : Key) × (b : DataBody) × (s.stored x.1 ≡ some (key_string key))
      × (env.data_lib.map_get (msg_map_of env s) key ≡ some b)

  -- The list of messages had the elements `before` and has those of `after`. Beside the list and its
  -- nodes nothing but the trace of the mutexes differs from `s`.
  pub record IsTrimmed (s : App M D) (before after : Items) (r : Unit {0} × App M D) : Type 0 where
    pub list : Leaves s.heap before after (msg_list_of env r.1) r.1.heap
    pub unlocked : r.1.locks ≡ no_locks
    pub map_kept : msg_map_of env r.1 ≡ msg_map_of env s
    pub neighbours_kept :
        (k : Key) → env.nbr_lib.map_get (cur_of env r.1) k ≡ env.nbr_lib.map_get (cur_of env s) k
    pub stored_kept : r.1.stored ≡ s.stored
    pub potential_same : pot_of env r.1 ≡ pot_of env s
    pub net_same : r.1.net ≡ s.net
    pub window_same : r.1.window ≡ s.window

  -- The rounds that are left of rm_n_msg.
  rm_rounds-oldest :
      (i n k : ℕ) (s : App M D) (xs : Items)
      → length xs ≡ k + n
      → i + n < 2 ^ 31
      → IsDllist s.heap (msg_list_of env s) xs
      → All (IsKnown s) xs
      → s.locks ≡ no_locks
      → IsMapLib env.nbr_lib
      → ((j : Key)
          → env.nbr_lib.map_get (cur_of env s) j ≢ none
          → HasEntry env IsIdle (cur_of env s) j)
      → Returns (IsTrimmed s xs (take k xs)) (rm_rounds env i n s)
  unfolding rm_rounds
  rm_rounds-oldest i zero k s xs size small is known free laws idle = returns (record {
    list =
        rw (take_all k xs (omega (arith, size)))
          (record { is = is; same = λ q out. refl; live = refl });
    unlocked = free;
    map_kept = refl;
    neighbours_kept = λ j. refl;
    stored_kept = refl;
    potential_same = refl;
    net_same = refl;
    window_same = refl;
  })
  rm_rounds-oldest i (suc n) k s xs size small is known free laws idle =
      let (x, split) = split_last (k + n) xs (omega (arith, size)) in
      let front : Items = take (k + n) xs in
      let all : All (IsKnown s) (front ++ (x ∷ [])) = subst (All (IsKnown s)) split known in
      let (ne, key, b, holds, there) = All-last (IsKnown s) front x all in
      let (r, run, d) =
        Run.result (
          rm_msg-oldest env s front x.0 x.1 key b (rw split at is) ne holds there free laws idle) in
      let same : (j : Key)
          → env.nbr_lib.map_get (cur_of env r.1) j ≡ env.nbr_lib.map_get (cur_of env s) j =
        d.neighbours_kept in
      let rest =
        rm_rounds-oldest (i + 1) n k r.1 front (length-take (k + n) xs (omega (arith, size)))
          (omega (arith, small)) d.list.leaves.is
          (All-mono (λ y h. still_known r.1 d.stored_kept d.map_kept y h) front
            (All-take (IsKnown s) (k + n) xs known))
          d.unlocked laws
          (λ j ne. let (e, here, i) = idle j (λ z. ne (same j ∙ z)) in (e, same j ∙ here, i)) in
      rw (run, d.dropped, int_next-Counts (suc i) (omega (arith, small)) i (omega arith))
        (Run.mono rest λ t g. record {
          list = rw (sym (take-take k (k + n) xs (omega arith))) (record {
            is = g.list.is;
            same = λ q out.
                let out : has q (front ++ (x ∷ [])) ≡ false = ap (has q) (sym split) ∙ out in
                g.list.same q (not-has-front q front (x ∷ []) out) ∙ d.list.leaves.same q out;
            live = g.list.live ∙ d.list.leaves.live;
          });
          unlocked = g.unlocked;
          map_kept = g.map_kept ∙ d.map_kept;
          neighbours_kept = λ j. g.neighbours_kept j ∙ same j;
          stored_kept = g.stored_kept ∙ d.stored_kept;
          potential_same = g.potential_same ∙ d.potential_same;
          net_same = g.net_same ∙ d.net_same;
          window_same = g.window_same ∙ d.window_same;
        })
    where
      still_known :
          (t : App M D)
          → t.stored ≡ s.stored
          → msg_map_of env t ≡ msg_map_of env s
          → (y : Ptr × Ptr) → IsKnown s y
          → IsKnown t y
      still_known t same_stored same_map y (ne, key, b, holds, there) = (
        ne,
        key,
        b,
        ap (λ f. f y.1) same_stored ∙ holds,
        ap (λ m. env.data_lib.map_get m key) same_map ∙ there,
      )

  -- rm_n_msg with no mutex held, of fewer than 2 ^ 31 messages and at most as many as the list has, each
  -- of whose keys is that of a message in the map, where the hash map is as documented and no message
  -- waits for a current neighbour: it ends, the `k` newest keys are left in the list in their order, and
  -- no mutex is held. The messages stay in the map, and the neighbours, current and potential, the
  -- objects, the socket, the window and the nodes outside the list are the same.
  pub rm_n_msg-oldest :
      (n k : ℕ) (s : App M D) (xs : Items)
      → length xs ≡ k + n
      → n < 2 ^ 31
      → IsDllist s.heap (msg_list_of env s) xs
      → All (IsKnown s) xs
      → s.locks ≡ no_locks
      → IsMapLib env.nbr_lib
      → ((j : Key)
          → env.nbr_lib.map_get (cur_of env s) j ≢ none
          → HasEntry env IsIdle (cur_of env s) j)
      → Returns (IsTrimmed s xs (take k xs)) (rm_n_msg env n s)
  unfolding rm_n_msg
  rm_n_msg-oldest n k s xs size small = rm_rounds-oldest 0 n k s xs size (omega (arith, small))
