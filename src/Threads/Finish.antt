-- ===== src/Threads/Finish.antt =====
-- The worker and the server can come to an end.
use s6_projet_reseau.Common.{
  ℕ, zero, suc, ◌+◌, ◌≤◌, ◌≡◌, refl, arith, false, ◌⊎◌, inl, inr, List, [], length,
}
use s6_projet_reseau.Shared.{Lock, Locks, holds}
use s6_projet_reseau.Threads.{
  Event, passes, serve, Thread, System, start, Move, takes, releases, Step, worker_step,
  server_step, Reach, here, next,
}
use s6_projet_reseau.Threads.Order.{
  AreOrdered, Step-AreOrdered, Reach-AreOrdered, progress, passes_ordered, serve_ordered, none_of,
}

-- The actions that are left.
abbrev left : System → ℕ
left s = length s.worker.rest + length s.server.rest

Move-length : {other : Locks} {s t : Thread} → Move other s t → length s.rest ≡ suc (length t.rest)
Move-length (takes free other_free) = refl
Move-length (releases mine) = refl

Step-left : {s t : System} → Step s t → left s ≡ suc (left t)
Step-left (worker_step m) = omega (arith, Move-length m)
Step-left (server_step m) = omega (arith, Move-length m)

-- Both threads are at the end, with no mutex held.
pub record IsEnd (s : System) : Type 0 where
  pub worker_done : s.worker.rest ≡ []
  pub server_done : s.server.rest ≡ []
  pub released : (k : Lock) → (holds k s.worker.held ≡ false) × (holds k s.server.held ≡ false)

go_on_or_end : (t : System) → AreOrdered t → ((v : System) × Step t v) ⊎ IsEnd t
go_on_or_end t (a, b) =
    elim (progress t.worker.held t.server.held t.worker.rest t.server.rest a b) [
      | inl (inl (v, m)) ↦ inl (_, worker_step m)
      | inl (inr (v, m)) ↦ inl (_, server_step m)
      | inr (p, q) ↦ inr (record {
        worker_done = p;
        server_done = q;
        released = λ k. (none_of k t.worker.held (rw p at a), none_of k t.server.held (rw q at b));
      })
    ]

finish :
    (n : ℕ) (s t : System)
    → Reach s t
    → left t ≤ n
    → AreOrdered t
    → (u : System) × Reach s u × IsEnd u
finish zero s t r few o = elim (go_on_or_end t o) [
  | inl (v, m) ↦ absurd (omega (arith, Step-left m))
  | inr e ↦ (t, r, e)
]
finish (suc n) s t r few o = elim (go_on_or_end t o) [
  | inl (v, m) ↦ finish n s v (next r m) (omega (arith, Step-left m)) (Step-AreOrdered m o)
  | inr e ↦ (t, r, e)
]

-- From every state that the worker, in any number of passes, and the server, in any sequence of events
-- that change neighbours, can come to from a start at which no mutex is held, they can come to one in
-- which both are at the end and no mutex is held.
pub can_finish :
    (n : ℕ) (es : List Event) (s : System)
    → Reach (start (passes n) (serve es)) s
    → (t : System) × Reach s t × IsEnd t
can_finish n es s r =
    finish (left s) s s here (omega arith) (Reach-AreOrdered r (passes_ordered n, serve_ordered es))
