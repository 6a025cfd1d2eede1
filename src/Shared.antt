-- ===== src/Shared.antt =====
-- What the threads share, of src/shared_resources.c: the two maps of neighbours, the map and the
-- list of messages, and their mutexes. A state is that of one thread that runs by itself.
use s6_projet_reseau.Common.{
  ℕ, Bool, true, false, Option, none, some, List, ◌∷◌, take, length, ltb, ◌==◌, ◌-◌, if◌then◌else◌,
}
use s6_projet_reseau.Common.Run
use s6_projet_reseau.Common.Run.{Run, ok, fault, blocked}
use s6_projet_reseau.Store.{Ptr, NodeType, Heap, Fresh, Cmd}
use s6_projet_reseau.Dllist.{Dllist, new_dllist}
use s6_projet_reseau.Wire.Machine.{Machine}
use s6_projet_reseau.Wire.Types.{DataBody, Sockaddr}
use s6_projet_reseau.Neighbours.{Key, NeighbourEntry, MapLib, DllistMsg}
use s6_projet_reseau.Connect.{Net}
use s6_projet_reseau.Gui.{Gui}

-- What the `void *data` of a node points to.
pub data Stored : Type 0 where
  key_string : Key → Stored
  waiting_msg : DllistMsg → Stored

-- The mutexes cur_neighbours_lock, pot_neighbours_lock, msg_map_lock and msg_list_lock.
pub data Lock : Type 0 where
  cur_neighbours pot_neighbours msg_map msg_list : Lock

-- What a thread does to a mutex.
pub data Action : Type 0 where
  acquire release : Lock → Action

pub record Locks : Type 0 where
  pub cur_held : Bool
  pub pot_held : Bool
  pub map_held : Bool
  pub list_held : Bool

abbrev pub no_locks : Locks
no_locks = record { cur_held = false; pot_held = false; map_held = false; list_held = false }

abbrev pub holds : Lock → Locks → Bool
holds Lock.cur_neighbours s = s.cur_held
holds Lock.pot_neighbours s = s.pot_held
holds Lock.msg_map s = s.map_held
holds Lock.msg_list s = s.list_held

abbrev pub set_lock : Lock → Bool → Locks → Locks
set_lock Lock.cur_neighbours b s = record s { cur_held = b }
set_lock Lock.pot_neighbours b s = record s { pot_held = b }
set_lock Lock.msg_map b s = record s { map_held = b }
set_lock Lock.msg_list b s = record s { list_held = b }

-- What the C library, the hash map and the network do. `M` is a map of neighbours and `D` one of
-- messages. random and time are called in a state of the objects, which they may depend on.
pub record Env (M D : Type 0) : Type 0 where
  pub machine : Machine
  pub nbr_lib : MapLib (Option NeighbourEntry) M
  pub data_lib : MapLib DataBody D
  pub accepts : Sockaddr → List ℕ → Bool
  pub getaddrinfo : List ℕ → List ℕ → Option (List Sockaddr)
  pub inet_ntop : List ℕ → List ℕ
  -- Where the address of a peer is in memory.
  pub address_of : Sockaddr → ℕ
  pub decimal : ℕ → List ℕ
  pub print_long : ℕ → List ℕ
  pub print_int : ℕ → List ℕ
  -- What strftime writes for the time.
  pub clock : List ℕ
  pub malloc : Heap → Fresh
  pub new_object : (Ptr → Option Stored) → Ptr
  pub random : (Ptr → Option Stored) → ℕ
  pub time : (Ptr → Option Stored) → ℕ
  pub client_id : ℕ

-- A global that is NULL is none.
pub record App (M D : Type 0) : Type 0 where
  pub heap : Heap
  pub stored : Ptr → Option Stored
  pub g_cur_neighbours : Option M
  pub g_pot_neighbours : Option M
  pub g_msg_map : Option D
  pub g_msg_list : Option Dllist
  pub locks : Locks
  -- What the thread did to the mutexes, the last first.
  pub trace : List Action
  pub net : Net
  pub window : Gui

abbrev pub or_else {ℓ} : {A : Type ℓ} → Option A → A → A
or_else none d = d
or_else (some a) d = a

abbrev pub Act : Type 0 → Type 0 → Type 0
Act S A = S → Run (A × S)

abbrev pub pure : {S A : Type 0} → A → Act S A
pure a s = ok (a, s)

infixl 5 ◌>>=◌ ◌>>◌
abbrev pub ◌>>=◌ : {S A B : Type 0} → Act S A → (A → Act S B) → Act S B
m >>= f = λ s. Run.◌>>=◌ (m s) (λ r. f r.0 r.1)

abbrev pub ◌>>◌ : {S B : Type 0} → Act S (Unit {0}) → Act S B → Act S B
m >> k = m >>= λ _. k

abbrev pub from_run : {S A : Type 0} → Run A → Act S A
from_run r s = Run.◌>>=◌ r (λ a. ok (a, s))

module _ {M D : Type 0} where
  -- On the lists of the state.
  abbrev pub on_heap : {A : Type 0} → Cmd A → Act (App M D) A
  on_heap m s = Run.◌>>=◌ (m s.heap) (λ r. ok (r.0, record s { heap = r.1 }))

  -- On the socket.
  abbrev pub on_net : (Net → Run Net) → Act (App M D) (Unit {0})
  on_net m s = Run.◌>>=◌ (m s.net) (λ net. ok (tt, record s { net = net }))

  -- A thread that holds a mutex waits for ever when it takes it again.
  unfoldable pub lock : Lock → Act (App M D) (Unit {0})
  lock k s =
      if holds k s.locks
      then blocked
      else ok (tt, record s { locks = set_lock k true s.locks; trace = acquire k ∷ s.trace })

  -- Releasing a mutex that is not held is undefined.
  unfoldable pub unlock : Lock → Act (App M D) (Unit {0})
  unlock k s =
      if holds k s.locks
      then ok (tt, record s { locks = set_lock k false s.locks; trace = release k ∷ s.trace })
      else fault

  -- Changes through the pointers that the functions below return.
  abbrev pub put_cur : M → Act (App M D) (Unit {0})
  put_cur m s = ok (tt, record s { g_cur_neighbours = some m })

  abbrev pub put_pot : M → Act (App M D) (Unit {0})
  put_pot m s = ok (tt, record s { g_pot_neighbours = some m })

  abbrev pub put_msg_map : D → Act (App M D) (Unit {0})
  put_msg_map d s = ok (tt, record s { g_msg_map = some d })

  abbrev pub put_msg_list : Dllist → Act (App M D) (Unit {0})
  put_msg_list l s = ok (tt, record s { g_msg_list = some l })

  module _ (env : Env M D) where
    abbrev pub cur_of : App M D → M
    cur_of s = or_else s.g_cur_neighbours env.nbr_lib.map_init

    abbrev pub pot_of : App M D → M
    pot_of s = or_else s.g_pot_neighbours env.nbr_lib.map_init

    abbrev pub msg_map_of : App M D → D
    msg_map_of s = or_else s.g_msg_map env.data_lib.map_init

    abbrev pub msg_list_of : App M D → Dllist
    msg_list_of s = or_else s.g_msg_list (new_dllist NodeType.string)

    unfoldable pub get_cur_neighbours : Act (App M D) M
    get_cur_neighbours = do
      lock Lock.cur_neighbours
      λ s. ok (cur_of s, record s { g_cur_neighbours = some (cur_of s) })

    unfoldable pub get_pot_neighbours : Act (App M D) M
    get_pot_neighbours = do
      lock Lock.pot_neighbours
      λ s. ok (pot_of s, record s { g_pot_neighbours = some (pot_of s) })

    unfoldable pub get_msg_map : Act (App M D) D
    get_msg_map = do
      lock Lock.msg_map
      λ s. ok (msg_map_of s, record s { g_msg_map = some (msg_map_of s) })

    unfoldable pub get_msg_list : Act (App M D) Dllist
    get_msg_list = do
      lock Lock.msg_list
      λ s. ok (msg_list_of s, record s { g_msg_list = some (msg_list_of s) })

-- `sizeof(int) < sizeof(long)`, so the first value is computed and lost; `rand` is the value of the
-- last call of rand().
unfoldable pub new_client_id : ℕ → ℕ
new_client_id rand = rand

-- snprintf of `name` over the old name, with `len` bytes: the last one is the zero.
unfoldable pub new_client_name : List ℕ → List ℕ → ℕ → List ℕ
new_client_name old name len =
    if len == 0 then old else if ltb (length name) len then name else take (len - 1) name
