-- ===== src/Store.antt =====
-- The memory of the lists of src/dllist.c: the nodes by their address, and the objects that the
-- `void *data` of a node may point to, which are allocated or not.
pub mod Steps
use s6_projet_reseau.Common.{
  ℕ, ◌≡◌, refl, Bool, true, false, Option, none, some, ◌||◌, ◌==◌, if◌then◌else◌,
}
use s6_projet_reseau.Common.Run
use s6_projet_reseau.Common.Run.{Run, ok, fault}

abbrev pub Ptr : Type 0
Ptr = ℕ

abbrev pub null : Ptr
null = 0

-- DLL_NODE_TYPE of src/types.h.
pub data NodeType : Type 0 where
  neighbour int string msg : NodeType

abbrev pub code : NodeType → ℕ
code neighbour = 0
code int = 1
code string = 2
code msg = 3

abbrev pub type_eq : NodeType → NodeType → Bool
type_eq s t = code s == code t

pub type_eq_self : (t : NodeType) → type_eq t t ≡ true
type_eq_self neighbour = refl
type_eq_self int = refl
type_eq_self string = refl
type_eq_self msg = refl

-- dllist_node_t; its field data is `content` here.
pub record Node : Type 0 where
  pub type : NodeType
  pub next : Ptr
  pub prev : Ptr
  pub content : Ptr

abbrev pub Cells : Type 0
Cells = Ptr → Option Node

pub record Heap : Type 0 where
  pub cell : Cells
  pub live : Ptr → Bool

-- What malloc returns for a node: its address, and what lies in its two links.
pub record Fresh : Type 0 where
  pub address : Ptr
  pub next : Ptr
  pub prev : Ptr

abbrev pub Cmd : Type 0 → Type 0
Cmd A = Heap → Run (A × Heap)

abbrev pub pure : {A : Type 0} → A → Cmd A
pure a h = ok (a, h)

infixl 5 ◌>>=◌ ◌>>◌
abbrev pub ◌>>=◌ : {A B : Type 0} → Cmd A → (A → Cmd B) → Cmd B
m >>= f = λ h. Run.◌>>=◌ (m h) (λ r. f r.0 r.1)

abbrev pub ◌>>◌ : {B : Type 0} → Cmd (Unit {0}) → Cmd B → Cmd B
m >> k = m >>= λ _. k

unfoldable pub write : Cells → Ptr → Option Node → Cells
write c p n q = if q == p then n else c q

abbrev pub store : Ptr → Option Node → Cmd (Unit {0})
store p n h = ok (tt, record h { cell = write h.cell p n })

-- A read through a null or dangling pointer is a fault.
unfoldable pub load : Ptr → Cmd Node
load p h = if p == null then fault else elim (h.cell p) [ none ↦ fault | some n ↦ ok (n, h) ]

-- `p->next = q` and `p->prev = q`
unfoldable pub set_next : Ptr → Ptr → Cmd (Unit {0})
set_next p q = do n ← load p; store p (some (record n { next = q }))

unfoldable pub set_prev : Ptr → Ptr → Cmd (Unit {0})
set_prev p q = do n ← load p; store p (some (record n { prev = q }))

-- free of a node that is not null.
unfoldable pub free : Ptr → Cmd (Unit {0})
free p = do _ ← load p; store p none

-- free of the object that a node points to; freeing null does nothing.
unfoldable pub free_data : Ptr → Cmd (Unit {0})
free_data p h =
    if p == null
    then ok (tt, h)
    else if h.live p
    then ok (tt, record h { live = λ q. if q == p then false else h.live q })
    else fault
