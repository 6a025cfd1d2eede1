-- ===== src/Threads/Order.antt =====
-- Threads that acquire the mutexes in the order of the worker do not wait for each other.
use s6_projet_reseau.Common.{
  ℕ, zero, suc, ◌<◌, ◌≡◌, ◌⊎◌, inl, inr, refl, arith, Bool, true, false, not, ◌&&◌, Bool-cases, leb,
  if◌then◌else◌, List, [], ◌∷◌,
}
use s6_projet_reseau.Shared.{Lock, Action, acquire, release, Locks, no_locks, holds, set_lock}
use s6_projet_reseau.Threads.{
  Event, passes, serve, Thread, System, thread, start, Move, takes, releases, Step, worker_step,
  server_step, Reach, here, next,
}

abbrev pub rank : Lock → ℕ
rank Lock.cur_neighbours = 0
rank Lock.pot_neighbours = 1
rank Lock.msg_list = 2
rank Lock.msg_map = 3

abbrev pub clear : Lock → Lock → Locks → Bool
clear j k h = if leb (rank k) (rank j) then not (holds j h) else true

-- No mutex of the same or a higher rank is held.
abbrev pub is_above : Lock → Locks → Bool
is_above k h =
    clear Lock.cur_neighbours k h
    && (clear Lock.pot_neighbours k h && (clear Lock.msg_list k h && clear Lock.msg_map k h))

abbrev pub none_held : Locks → Bool
none_held h = not h.cur_held && (not h.pot_held && (not h.map_held && not h.list_held))

-- Each mutex is taken above those that are held, and what is released is held.
abbrev pub is_ordered : Locks → List Action → Bool
is_ordered h [] = none_held h
is_ordered h (acquire k ∷ p) = is_above k h && is_ordered (set_lock k true h) p
is_ordered h (release k ∷ p) = holds k h && is_ordered (set_lock k false h) p

and_left : (a b : Bool) → (a && b) ≡ true → a ≡ true
and_left a b h = ground arith

and_right : (a b : Bool) → (a && b) ≡ true → b ≡ true
and_right a b h = ground arith

rank-lt_of_clear :
    (j k : Lock) (h : Locks) → clear j k h ≡ true → holds j h ≡ true → rank j < rank k
rank-lt_of_clear j k h c held = ground arith

rank-lt : (j k : Lock) (h : Locks) → is_above k h ≡ true → holds j h ≡ true → rank j < rank k
rank-lt Lock.cur_neighbours k h a held =
    rank-lt_of_clear Lock.cur_neighbours k h (ground arith) held
rank-lt Lock.pot_neighbours k h a held =
    rank-lt_of_clear Lock.pot_neighbours k h (ground arith) held
rank-lt Lock.msg_map k h a held = rank-lt_of_clear Lock.msg_map k h (ground arith) held
rank-lt Lock.msg_list k h a held = rank-lt_of_clear Lock.msg_list k h (ground arith) held

Move-is_ordered :
    {other : Locks} {s t : Thread}
    → Move other s t
    → is_ordered s.held s.rest ≡ true
    → is_ordered t.held t.rest ≡ true
Move-is_ordered (takes free other_free) h = and_right _ _ h
Move-is_ordered (releases mine) h = and_right _ _ h

abbrev pub AreOrdered : System → Type 0
AreOrdered s =
    (is_ordered s.worker.held s.worker.rest ≡ true)
    × (is_ordered s.server.held s.server.rest ≡ true)

pub Step-AreOrdered : {s t : System} → Step s t → AreOrdered s → AreOrdered t
Step-AreOrdered (worker_step m) (a, b) = (Move-is_ordered m a, b)
Step-AreOrdered (server_step m) (a, b) = (a, Move-is_ordered m b)

pub Reach-AreOrdered : {s t : System} → Reach s t → AreOrdered s → AreOrdered t
Reach-AreOrdered here h = h
Reach-AreOrdered (next r m) h = Step-AreOrdered m (Reach-AreOrdered r h)

not_held : (k : Lock) (h : Locks) → is_above k h ≡ true → holds k h ≡ false
not_held k h a = elim (Bool-cases (holds k h)) [
  | inl held ↦ absurd (omega (arith, rank-lt k k h a held))
  | inr free ↦ free
]

pub none_of : (k : Lock) (h : Locks) → none_held h ≡ true → holds k h ≡ false
none_of Lock.cur_neighbours h n = ground arith
none_of Lock.pot_neighbours h n = ground arith
none_of Lock.msg_map h n = ground arith
none_of Lock.msg_list h n = ground arith

abbrev pub CanMove : Locks → Thread → Type 0
CanMove other s = (t : Thread) × Move other s t

acquire_free :
    (other h : Locks) (k : Lock) (p : List Action)
    → is_above k h ≡ true
    → holds k other ≡ false
    → CanMove other (thread h (acquire k ∷ p))
acquire_free other h k p a free = (_, takes (not_held k h a) free)

-- Two threads that acquire the mutexes in order: one of them can go on, or both are at the end.
pub progress :
    (h o : Locks) (p q : List Action)
    → is_ordered h p ≡ true
    → is_ordered o q ≡ true
    → (CanMove o (thread h p) ⊎ CanMove h (thread o q)) ⊎ ((p ≡ []) × (q ≡ []))
progress h o [] [] a b = inr (refl, refl)
progress h o [] (release j ∷ q) a b = inl (inr (_, releases (and_left _ _ b)))
progress h o [] (acquire j ∷ q) a b =
    inl (inr (acquire_free h o j q (and_left _ _ b) (none_of j h a)))
progress h o (release k ∷ p) q a b = inl (inl (_, releases (and_left _ _ a)))
progress h o (acquire k ∷ p) [] a b =
    inl (inl (acquire_free o h k p (and_left _ _ a) (none_of k o b)))
progress h o (acquire k ∷ p) (release j ∷ q) a b = inl (inr (_, releases (and_left _ _ b)))
progress h o (acquire k ∷ p) (acquire j ∷ q) a b = elim (Bool-cases (holds k o)) [
  | inr free ↦ inl (inl (acquire_free o h k p (and_left _ _ a) free))
  | inl taken ↦ elim (Bool-cases (holds j h)) [
    | inr free ↦ inl (inr (acquire_free h o j q (and_left _ _ b) free))
    | inl crossed ↦ absurd (
        omega (arith, rank-lt k j o (and_left _ _ b) taken, rank-lt j k h (and_left _ _ a) crossed))
  ]
]

pub passes_ordered : (n : ℕ) → is_ordered no_locks (passes n) ≡ true
passes_ordered zero = refl
passes_ordered (suc n) = passes_ordered n

pub serve_ordered : (es : List Event) → is_ordered no_locks (serve es) ≡ true
serve_ordered [] = refl
serve_ordered (Event.hello ∷ es) = serve_ordered es
serve_ordered (Event.ack ∷ es) = serve_ordered es
serve_ordered (Event.go_away ∷ es) = serve_ordered es
serve_ordered (Event.greeted ∷ es) = serve_ordered es
serve_ordered (Event.not_greeted ∷ es) = serve_ordered es
serve_ordered (Event.repeated ∷ es) = serve_ordered es

-- In every state that the worker, in any number of passes, and the server, in any sequence of events
-- that change neighbours, can come to from a start at which no mutex is held, one of the two can go on,
-- or both are at the end.
pub no_deadlock :
    (n : ℕ) (es : List Event) (s : System)
    → Reach (start (passes n) (serve es)) s
    → ((t : System) × Step s t) ⊎ ((s.worker.rest ≡ []) × (s.server.rest ≡ []))
no_deadlock n es s r =
    let (a, b) = Reach-AreOrdered r (passes_ordered n, serve_ordered es) in
    elim (progress s.worker.held s.server.held s.worker.rest s.server.rest a b) [
      | inl (inl (t, m)) ↦ inl (_, worker_step m)
      | inl (inr (t, m)) ↦ inl (_, server_step m)
      | inr done ↦ inr done
    ]
