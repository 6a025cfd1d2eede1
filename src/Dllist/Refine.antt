-- ===== src/Dllist/Refine.antt =====
-- The lists of src/dllist.c keep what Dllist/Spec promises.
use mathlib.Core.Path.{subst}
use s6_projet_reseau.Common.{
  ℕ, zero, suc, ◌+◌, ◌<◌, ◌≤◌, ◌^◌, ◌≡◌, refl, sym, ap, ◌∙◌, arith, Bool, true, false, List, [],
  ◌∷◌, length, length-append,
}
use s6_projet_reseau.Common.Run
use s6_projet_reseau.Common.Run.{Run, ok, Returns, returns}
use s6_projet_reseau.Store.{Ptr, NodeType, Heap}
use s6_projet_reseau.Dllist.{Dllist}
use s6_projet_reseau.Dllist.Spec.{
  refuses, Call, Answer, insert_nth, remove_nth, remove_last, unless, promised, all_promised,
  perform, perform_all,
}
use s6_projet_reseau.Dllist.Sequence.{Represents, length-contents}
use s6_projet_reseau.Dllist.Keeps.{Keeps, IsFreshFor}
use s6_projet_reseau.Dllist.Calls.{items-Keeps}

-- One call on a list that represents `ds`.
perform-Keeps :
    (c : Call) (l : Dllist) (h : Heap) (ds : List Ptr)
    → Represents h l ds
    → IsFreshFor c h
    → length ds < 2 ^ 31
    → Returns (Keeps l (promised c l.type ds)) (perform c l h)
perform-Keeps c l h ds rep fresh small =
    subst (λ es. Returns (Keeps l (promised c l.type es)) (perform c l h)) rep.same
      (items-Keeps l h c rep.items rep.is fresh
        (rw (sym (length-contents rep.items), rep.same) small))

-- In each state that the calls come to, the node that malloc gives is new.
abbrev pub AreFresh : List Call → Dllist → Heap → Type 0
AreFresh [] l h = Unit
AreFresh (c ∷ cs) l h =
    IsFreshFor c h × (elim (perform c l h) [ ok r ↦ AreFresh cs r.0.1 r.1 | _ ↦ Unit ])

length-insert_nth : (i : ℕ) (d : Ptr) (ds : List Ptr) → length (insert_nth i d ds) ≡ suc (length ds)
length-insert_nth zero d ds = refl
length-insert_nth (suc i) d [] = refl
length-insert_nth (suc i) d (e ∷ ds) = ap suc (length-insert_nth i d ds)

length-remove_nth : (i : ℕ) (ds : List Ptr) → length (remove_nth i ds).1 ≤ length ds
length-remove_nth i [] = omega arith
length-remove_nth zero (d ∷ ds) = omega arith
length-remove_nth (suc i) (d ∷ ds) = omega (arith, length-remove_nth i ds)

length-remove_last : (ds : List Ptr) → length (remove_last ds).1 ≤ length ds
length-remove_last [] = omega arith
length-remove_last (d ∷ []) = omega arith
length-remove_last (d ∷ e ∷ ds) = omega (arith, length-remove_last (e ∷ ds))

length-unless :
    (refused : Bool) (ds es : List Ptr)
    → length es ≡ suc (length ds)
    → length (unless refused ds es).1 ≤ suc (length ds)
length-unless true ds es e = omega arith
length-unless false ds es e = omega (arith, e)

length-promised :
    (c : Call) (t : NodeType) (ds : List Ptr) → length (promised c t ds).1 ≤ suc (length ds)
length-promised (Call.push_back a type d) t ds =
    length-unless (refuses t type d) ds _ (omega (arith, length-append {0} ds (d ∷ [])))
length-promised (Call.push_front a type d) t ds = length-unless (refuses t type d) ds _ refl
length-promised (Call.insert a i type d) t ds =
    length-unless (refuses t type d) ds _ (length-insert_nth i d ds)
length-promised (Call.remove i) t ds = omega (arith, length-remove_nth i ds)
length-promised Call.pop_back t ds = omega (arith, length-remove_last ds)
length-promised Call.pop_front t ds = omega (arith, length-remove_nth 0 ds)

-- What the calls return and leave on a list of type `t` that represents `ds`.
abbrev pub Does : List Call → NodeType → List Ptr → (List Answer × Dllist) × Heap → Type 0
Does cs t ds r = (r.0.0 ≡ (all_promised cs t ds).0) × Represents r.1 r.0.1 (all_promised cs t ds).1

-- Any sequence of calls of the operations that change a list, from one that represents the sequence
-- `ds`, where malloc gives new nodes and there are fewer than 2 ^ 31 elements and calls: no call
-- faults, each returns what is promised of a sequence of pointers, and the list that is left represents
-- the sequence that is promised. A call may be refused, and an index may lie behind the end.
pub perform_all-Represents :
    (cs : List Call) (l : Dllist) (h : Heap) (ds : List Ptr)
    → Represents h l ds
    → AreFresh cs l h
    → length ds + length cs < 2 ^ 31
    → Returns (Does cs l.type ds) (perform_all cs l h)
unfolding perform_all
perform_all-Represents [] l h ds rep fresh small = returns (refl, rep)
perform_all-Represents (c ∷ cs) l h ds rep fresh small =
    let (r, run, (answer, rep', type)) =
      Run.result (perform-Keeps c l h ds rep fresh.0 (omega arith)) in
    let fresh' : AreFresh cs r.0.1 r.1 = rw run at fresh.1 in
    let (s, rest, (answers, rep'')) = Run.result (
      subst (λ t. Returns (Does cs t (promised c l.type ds).1) (perform_all cs r.0.1 r.1)) type
        (perform_all-Represents cs r.0.1 r.1 (promised c l.type ds).1 rep' fresh'
          (omega (arith, length-promised c l.type ds, small)))) in
    rw (run, rest)
      (returns
        (ap (λ a. a ∷ s.0.0) answer ∙ ap (λ xs. (promised c l.type ds).0 ∷ xs) answers, rep''))
