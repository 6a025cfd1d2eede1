-- ===== src/Dllist/Spec.antt =====
-- What a list promises: a sequence of pointers to data, of one type, that is changed at its ends and
-- at an index.
use s6_projet_reseau.Common.{
  ◌==◌, ◌||◌, not, ℕ, zero, suc, Bool, true, false, Option, some, List, [], ◌∷◌, ◌++◌,
  if◌then◌else◌,
}
use s6_projet_reseau.Common.Run
use s6_projet_reseau.Common.Run.{Run, ok}
use s6_projet_reseau.Store.{type_eq, Ptr, null, NodeType, Heap, Fresh, Cmd}
use s6_projet_reseau.Dllist.{
  Dllist, dllist_push_back, dllist_push_front, dllist_insert, dllist_remove, dllist_pop_back,
  dllist_pop_front,
}

-- A call, with the node that malloc gives it.
pub data Call : Type 0 where
  push_back push_front : Fresh → NodeType → Ptr → Call
  insert : Fresh → ℕ → NodeType → Ptr → Call
  remove : ℕ → Call
  pop_back pop_front : Call

-- What a call returns: whether it was done, or data.
pub data Answer : Type 0 where
  done : Bool → Answer
  data_at : Ptr → Answer

-- At an index behind the end the data is put at the end.
abbrev pub insert_nth : ℕ → Ptr → List Ptr → List Ptr
insert_nth zero d ds = d ∷ ds
insert_nth (suc i) d [] = d ∷ []
insert_nth (suc i) d (e ∷ ds) = e ∷ insert_nth i d ds

-- Behind the end there is null to be taken.
abbrev pub remove_nth : ℕ → List Ptr → Ptr × List Ptr
remove_nth i [] = (null, [])
remove_nth zero (d ∷ ds) = (d, ds)
remove_nth (suc i) (d ∷ ds) = ((remove_nth i ds).0, d ∷ (remove_nth i ds).1)

abbrev pub remove_last : List Ptr → Ptr × List Ptr
remove_last [] = (null, [])
remove_last (d ∷ []) = (d, [])
remove_last (d ∷ e ∷ ds) = ((remove_last (e ∷ ds)).0, d ∷ (remove_last (e ∷ ds)).1)

abbrev pub unless : Bool → List Ptr → List Ptr → Answer × List Ptr
unless refused ds ds' = if refused then (done false, ds) else (done true, ds')

abbrev pub taken : Ptr × List Ptr → Answer × List Ptr
taken r = (data_at r.0, r.1)

-- Data that is null or of another type than the list is refused.
abbrev pub refuses : NodeType → NodeType → Ptr → Bool
refuses t type d = (d == null) || not (type_eq type t)

-- A call on the sequence `ds` of a list of type `t`.
abbrev pub promised : Call → NodeType → List Ptr → Answer × List Ptr
promised (push_back a type d) t ds = unless (refuses t type d) ds (ds ++ (d ∷ []))
promised (push_front a type d) t ds = unless (refuses t type d) ds (d ∷ ds)
promised (insert a i type d) t ds = unless (refuses t type d) ds (insert_nth i d ds)
promised (remove i) t ds = taken (remove_nth i ds)
promised pop_back t ds = taken (remove_last ds)
promised pop_front t ds = taken (remove_nth 0 ds)

abbrev pub all_promised : List Call → NodeType → List Ptr → List Answer × List Ptr
all_promised [] t ds = ([], ds)
all_promised (c ∷ cs) t ds =
    let r = promised c t ds in let rest = all_promised cs t r.1 in (r.0 ∷ rest.0, rest.1)

abbrev pub added_to : Run ((Bool × Option Dllist) × Heap) → Run ((Answer × Dllist) × Heap)
added_to r = Run.◌>>=◌ r λ s. Run.◌>>=◌ (Run.from_option s.0.1) λ l. ok ((done s.0.0, l), s.1)

abbrev pub taken_from : Run ((Ptr × Dllist) × Heap) → Run ((Answer × Dllist) × Heap)
taken_from r = Run.◌>>=◌ r λ s. ok ((data_at s.0.0, s.0.1), s.1)

abbrev pub perform : Call → Dllist → Cmd (Answer × Dllist)
perform (push_back a type d) l h = added_to (dllist_push_back a (some l) type d h)
perform (push_front a type d) l h = added_to (dllist_push_front a (some l) type d h)
perform (insert a i type d) l h = added_to (dllist_insert a (some l) i type d h)
perform (remove i) l h = taken_from (dllist_remove l i h)
perform pop_back l h = taken_from (dllist_pop_back l h)
perform pop_front l h = taken_from (dllist_pop_front l h)

unfoldable pub perform_all : List Call → Dllist → Cmd (List Answer × Dllist)
perform_all [] l h = ok (([], l), h)
perform_all (c ∷ cs) l h =
    Run.◌>>=◌ (perform c l h)
      λ r. Run.◌>>=◌ (perform_all cs r.0.1 r.1) λ s. ok ((r.0.0 ∷ s.0.0, s.0.1), s.1)
