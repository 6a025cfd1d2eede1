-- ===== src/Tests/State.antt =====
-- A state of the program with one neighbour, one known message and one that waits.
use s6_projet_reseau.Common.{
  ◌≡◌, refl, true, false, Option, none, some, List, [], ◌∷◌, ◌==◌, ◌≢◌, if◌then◌else◌,
}
use s6_projet_reseau.Store.{Ptr, null, NodeType, Heap}
use s6_projet_reseau.Dllist.{Dllist}
use s6_projet_reseau.Dllist.Seg.{node}
use s6_projet_reseau.Dllist.Rep.{IsDllist}
use s6_projet_reseau.Wire.Types.{HelloBody, DataBody, AckBody, GoAwayBody}
use s6_projet_reseau.Neighbours.{Key, NeighbourEntry, DllistMsg}
use s6_projet_reseau.Shared.{key_string, waiting_msg, no_locks, Env, App}
use s6_projet_reseau.Reached.{no_texts}
use s6_projet_reseau.Tests.Data.{pc, net, text_body, address}
use s6_projet_reseau.Tests.Table.{table}

abbrev pub Neighbours : Type 0
Neighbours = List (Key × Option NeighbourEntry)

abbrev pub Messages : Type 0
Messages = List (Key × DataBody)

abbrev pub env : Env Neighbours Messages
env = record {
  machine = pc;
  nbr_lib = table;
  data_lib = table;
  accepts = λ p text. true;
  getaddrinfo = λ host port. some (address ∷ []);
  inet_ntop = λ ip. ip;
  address_of = λ p. 4096;
  decimal = λ n. n ∷ [];
  print_long = λ n. n ∷ [];
  print_int = λ n. n ∷ [];
  clock = 49 ∷ [];
  malloc = λ h. record { address = 40; next = 0; prev = 0 };
  new_object = λ stored. elim (stored 70) [ none ↦ 70 | some v ↦ 80 ];
  random = λ stored. 5;
  time = λ stored. 100;
  client_id = 9;
}

-- A message that waits to be sent at the time 200.
abbrev pub waiting : DllistMsg
waiting = record { tries = 0; map_key = 7 ∷ 513 ∷ []; time_send = 200; body = text_body 2 }

abbrev pub calm : NeighbourEntry
calm = record {
  addr = address;
  last_short_hello = 0;
  last_long_hello = 0;
  pmtu = 1024;
  msg_to_send = record { first = 0; last = 0; size = 0; type = NodeType.msg };
}

abbrev pub busy : NeighbourEntry
busy = record calm { msg_to_send = record { first = 51; last = 51; size = 1; type = NodeType.msg } }

abbrev pub known : Dllist
known = record { first = 50; last = 50; size = 1; type = NodeType.string }

-- The keys of the address with its port in network order, and in host order.
abbrev pub address_key : Key
address_key = 58 ∷ 58 ∷ 49 ∷ 39455 ∷ []

abbrev pub host_key : Key
host_key = 58 ∷ 58 ∷ 49 ∷ 8090 ∷ []

abbrev pub short_hello : HelloBody
short_hello = record { is_long = false; source_id = 3; dest_id = 0 }

abbrev pub bye : GoAwayBody
bye = record { code = 2; has_message = false; message = none }

abbrev pub got_it : AckBody
got_it = record { sender_id = 7; nonce = 513 }

-- The current neighbours and the list of messages are given.
abbrev pub state : Option Neighbours → Option Neighbours → Option Dllist → App Neighbours Messages
state cur pot l = record {
  heap = record {
    cell = λ a.
        if a == 50
        then some (node NodeType.string 0 0 60)
        else if a == 51
        then some (node NodeType.msg 0 0 61)
        else none;
    live = λ a. true;
  };
  stored = λ p.
      if p == 60
      then some (key_string (1 ∷ 2 ∷ []))
      else if p == 61
      then some (waiting_msg waiting)
      else none;
  g_cur_neighbours = cur;
  g_pot_neighbours = pot;
  g_msg_map = none;
  g_msg_list = l;
  locks = no_locks;
  trace = [];
  net = net;
  window = no_texts;
}

-- A list of one node, which is the only one and has null links.
abbrev pub one_node :
    (h : Heap) (p d : Ptr) (t : NodeType)
    → p ≢ null
    → h.cell p ≡ some (node t 0 0 d)
    → IsDllist h (record { first = p; last = p; size = 1; type = t }) ((p, d) ∷ [])
one_node h p d t ne holds = record {
  first = refl;
  last = refl;
  size = refl;
  distinct = (ne, refl, tt);
  before = 0;
  after = 0;
  chain = (holds, tt);
}
