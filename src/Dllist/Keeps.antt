-- ===== src/Dllist/Keeps.antt =====
-- The calls of src/dllist.c, each against what Dllist/Spec promises of it.
use s6_projet_reseau.Common.{
  ◌==◌, if◌then◌else◌, ℕ, ◌≤◌, ◌≡◌, refl, sym, ap, ◌∙◌, arith, Bool, true, false, Option, some,
  List, [], ◌∷◌, length, ltb, lt→ltb, le→leb,
}
use s6_projet_reseau.Common.Run
use s6_projet_reseau.Common.Run.{Run, ok, Returns, returns}
use s6_projet_reseau.Store.{code, type_eq, Ptr, null, NodeType, Heap, Fresh}
use s6_projet_reseau.Dllist.{
  Dllist, is_refused, dllist_is_empty, dllist_push_back, dllist_push_front, dllist_insert,
  dllist_remove, dllist_pop_back, dllist_pop_front,
}
use s6_projet_reseau.Dllist.Seg.{Items}
use s6_projet_reseau.Dllist.Rep.{IsDllist}
use s6_projet_reseau.Dllist.Added.{Pushed, IsFresh, IsAccepted}
use s6_projet_reseau.Common.Holds.{Holds, Holds-ok}
use s6_projet_reseau.Dllist.Typed.{OfType}
use s6_projet_reseau.Dllist.Removed.{not_empty, Removed}
use s6_projet_reseau.Dllist.Spec.{
  refuses, taken, Call, Answer, data_at, unless, added_to, taken_from,
}
use s6_projet_reseau.Dllist.Sequence.{contents, Represents}

of_code : ℕ → NodeType
of_code n =
    if n == 0
    then NodeType.neighbour
    else if n == 1
    then NodeType.int
    else if n == 2
    then NodeType.string
    else NodeType.msg

of_code-code : (t : NodeType) → of_code (code t) ≡ t
unfolding of_code
of_code-code NodeType.neighbour = refl
of_code-code NodeType.int = refl
of_code-code NodeType.string = refl
of_code-code NodeType.msg = refl

same_type_of : (s t : NodeType) → type_eq s t ≡ true → s ≡ t
same_type_of s t e =
    let same : code s ≡ code t = ground (arith, e) in
    sym (of_code-code s) ∙ ap of_code same ∙ of_code-code t

-- What a call that is not refused is given.
pub is_refused-IsAccepted :
    (l : Dllist) (type : NodeType) (d : Ptr) → is_refused l type d ≡ false → IsAccepted l type d
is_refused-IsAccepted l type d e = record {
  not_null = ground (arith, e);
  same_type = same_type_of type l.type (ground (arith, e));
}

-- What a call returns, and that the list is changed as promised.
abbrev pub Keeps : Dllist → Answer × List Ptr → (Answer × Dllist) × Heap → Type 0
Keeps l p r = (r.0.0 ≡ p.0) × Represents r.1 r.0.1 p.1 × (r.0.1.type ≡ l.type)

-- A call that adds, from what the function does when it refuses the data and when it accepts it.
pub added-Keeps :
    (l : Dllist) (h : Heap) (ds : List Ptr) (refused : Bool) (items : Items) (after : List Ptr)
    (r : Run ((Bool × Option Dllist) × Heap))
    → Represents h l ds
    → (refused ≡ true → r ≡ ok ((false, some l), h))
    → (refused ≡ false → (touched : Items) × Returns (Pushed h touched items) r)
    → contents items ≡ after
    → Holds (λ s. OfType l s.0.1) r
    → Returns (Keeps l (unless refused ds after)) (added_to r)
added-Keeps l h ds true items after r rep refuses accepts same typed =
    rw (refuses refl) (returns (refl, rep, refl))
added-Keeps l h ds false items after r rep refuses accepts same typed =
    let (touched, run) = accepts refl in
    let (x, e, (l', is_l', leaves)) = Run.result run in
    let header : x.0.1 ≡ some l' = ap (λ (o : Bool × Option Dllist). o.1) is_l' in
    let added : x.0.0 ≡ true = ap (λ (o : Bool × Option Dllist). o.0) is_l' in
    let kept : OfType l x.0.1 = Holds-ok typed e in
    let type : l'.type ≡ l.type = rw header at kept in
    rw (e, header, added)
      (returns (refl, record { items = items; is = leaves.is; same = same }, type))

pub taken-Keeps :
    (l : Dllist) (h : Heap) (q e : Ptr) (touched ys : Items) (p : Ptr × List Ptr)
    (r : Run ((Ptr × Dllist) × Heap))
    → p ≡ (e, contents ys)
    → Returns (Removed h q e touched ys) r
    → Holds (λ s. s.0.1.type ≡ l.type) r
    → Returns (Keeps l (taken p)) (taken_from r)
taken-Keeps l h q e touched ys p r same gone typed =
    let (x, run, d) = Run.result gone in
    rw (run, same)
      (returns (
        ap data_at d.data_is,
        record { items = ys; is = d.leaves.is; same = refl },
        Holds-ok typed run,
      ))

-- A call that takes nothing out.
pub untaken-Keeps :
    (l : Dllist) (h : Heap) (xs : Items) (p : Ptr × List Ptr) (r : Run ((Ptr × Dllist) × Heap))
    → IsDllist h l xs
    → p ≡ (null, contents xs)
    → r ≡ ok ((null, l), h)
    → Returns (Keeps l (taken p)) (taken_from r)
untaken-Keeps l h xs p r is same e =
    rw (e, same) (returns (refl, record { items = xs; is = is; same = refl }, refl))

-- The node that malloc gives is new.
abbrev pub IsFreshFor : Call → Heap → Type 0
IsFreshFor (Call.push_back a type d) h = IsFresh h a
IsFreshFor (Call.push_front a type d) h = IsFresh h a
IsFreshFor (Call.insert a i type d) h = IsFresh h a
IsFreshFor _ h = Unit

pub push_back-refused :
    (a : Fresh) (l : Dllist) (type : NodeType) (d : Ptr) (h : Heap)
    → is_refused l type d ≡ true
    → dllist_push_back a (some l) type d h ≡ ok ((false, some l), h)
unfolding dllist_push_back
push_back-refused a l type d h e = rw e refl

pub push_front-refused :
    (a : Fresh) (l : Dllist) (type : NodeType) (d : Ptr) (h : Heap)
    → is_refused l type d ≡ true
    → dllist_push_front a (some l) type d h ≡ ok ((false, some l), h)
unfolding dllist_push_front
push_front-refused a l type d h e = rw e refl

pub insert-refused :
    (a : Fresh) (l : Dllist) (i : ℕ) (type : NodeType) (d : Ptr) (h : Heap)
    → is_refused l type d ≡ true
    → dllist_insert a (some l) i type d h ≡ ok ((false, some l), h)
unfolding dllist_insert
insert-refused a l i type d h e = rw e refl

-- Behind the end there is nothing to remove.
pub remove-behind :
    (l : Dllist) (i : ℕ) (h : Heap) (xs : Items)
    → IsDllist h l xs
    → length xs ≤ i
    → dllist_remove l i h ≡ ok ((null, l), h)
unfolding dllist_remove dllist_is_empty
remove-behind l i h [] is le = rw is.first refl
remove-behind l i h ((p, d) ∷ xs) is le =
    let inside : ltb 0 i ≡ true = lt→ltb 0 i (omega arith) in
    rw (not_empty p d xs is, inside, le→leb l.size i (omega (arith, is.size))) refl

pub pop_back-empty :
    (l : Dllist) (h : Heap) → IsDllist h l [] → dllist_pop_back l h ≡ ok ((null, l), h)
unfolding dllist_pop_back dllist_is_empty
pop_back-empty l h is = rw is.first refl

pub pop_front-empty :
    (l : Dllist) (h : Heap) → IsDllist h l [] → dllist_pop_front l h ≡ ok ((null, l), h)
unfolding dllist_pop_front dllist_is_empty
pop_front-empty l h is = rw is.first refl
