-- ===== src/Tests/Data.antt =====
-- The data of the tests.
use s6_projet_reseau.Common.{
  ℕ, suc, true, none, some, List, [], ◌∷◌, ◌==◌, ◌≢◌, refl, arith, if◌then◌else◌,
}
use s6_projet_reseau.Common.Run.{ok}
use s6_projet_reseau.Store.{null, NodeType, Cells, Heap, Fresh}
use s6_projet_reseau.Dllist.{Dllist}
use s6_projet_reseau.Dllist.Seg.{Items, node}
use s6_projet_reseau.Dllist.Rep.{IsDllist}
use s6_projet_reseau.Dllist.Added.{IsFresh, IsAccepted}
use s6_projet_reseau.Wire.Host.{ByteOrder}
use s6_projet_reseau.Wire.Machine.{Machine}
use s6_projet_reseau.Wire.TlvType
use s6_projet_reseau.Wire.Types.{Sockaddr, Body, Tlv, Msg, CharPtr, NeighbourBody, DataBody}
use s6_projet_reseau.Wire.Serial.Format.{IsPlainMsg}
use s6_projet_reseau.Connect.{Net, Handlers}

abbrev pub pc : Machine
pc = record {
  order = ByteOrder.little;
  junk = λ i. 170;
  ip_address = λ e. 4096;
  str_address = λ p. 8192;
}

abbrev pub server : Machine
server = record pc { order = ByteOrder.big }

abbrev pub hello_tlv : Tlv
hello_tlv = record {
  type = TlvType.hello;
  length = 16;
  body = Body.hello (record { is_long = true; source_id = 7; dest_id = 300 });
}

abbrev pub ack_tlv : Tlv
ack_tlv = record {
  type = TlvType.ack;
  length = 12;
  body = Body.ack (record { sender_id = 7; nonce = 513 });
}

abbrev pub pad_tlv : Tlv
pad_tlv = record { type = TlvType.pad1; length = 0; body = Body.unset }

abbrev pub message : Msg
message = record {
  magic = 93;
  version = 2;
  length = 34;
  tlv_nb = 3;
  body = hello_tlv ∷ pad_tlv ∷ ack_tlv ∷ [];
}

pub message-IsPlainMsg : IsPlainMsg message
message-IsPlainMsg = record {
  magic = omega arith;
  version = omega arith;
  length_fits = omega arith;
  count = refl;
  plain = (
    (refl, refl, omega arith, omega arith, refl),
    ((refl, refl), ((refl, refl, omega arith, omega arith), tt)),
  );
}

abbrev pub text : CharPtr
text = record { address = 8192; bytes = 104 ∷ 105 ∷ [] }

abbrev pub peer_body : NeighbourBody
peer_body = record {
  ip = 1 ∷ 2 ∷ 3 ∷ 4 ∷ 5 ∷ 6 ∷ 7 ∷ 8 ∷ 9 ∷ 10 ∷ 11 ∷ 12 ∷ 13 ∷ 14 ∷ 15 ∷ 16 ∷ [];
  port = 8090;
}

abbrev pub text_body : ℕ → DataBody
text_body len = record { sender_id = 7; nonce = 513; type = 0; data_len = len; content = text }

-- The text "a:b", with its zero.
abbrev pub said_body : DataBody
said_body = record {
  sender_id = 7;
  nonce = 513;
  type = 0;
  data_len = 3;
  content = record { address = 8192; bytes = 97 ∷ 58 ∷ 98 ∷ 0 ∷ [] };
}

abbrev pub address : Sockaddr
address = record { ip = 58 ∷ 58 ∷ 49 ∷ []; sin6_port = 39455 }

abbrev pub net : Net
net = record { is_open = true; sent = [] }

-- Handlers that log the kind of each call.
abbrev pub log : Handlers (List ℕ)
log = record {
  process_hello = λ e s. ok (2 ∷ s);
  process_neighbour = λ e s. ok (3 ∷ s);
  process_data = λ e s. ok (4 ∷ s);
  process_ack = λ e s. ok (5 ∷ s);
  process_go_away = λ e s. ok (6 ∷ s);
  process_warning = λ e s. ok (7 ∷ s);
}

pub suc_ne : (n : ℕ) → suc n ≢ null
suc_ne n e = absurd (omega (arith, e))

-- Three nodes at the addresses 1, 2 and 3.
abbrev pub cells : Cells
cells a =
    if a == 1
    then some (node NodeType.int 2 0 11)
    else if a == 2
    then some (node NodeType.int 3 1 12)
    else if a == 3
    then some (node NodeType.int 0 2 13)
    else none

abbrev pub heap : Heap
heap = record { cell = cells; live = λ a. true }

abbrev pub three : Items
three = (1, 11) ∷ (2, 12) ∷ (3, 13) ∷ []

abbrev pub header : Dllist
header = record { first = 1; last = 3; size = 3; type = NodeType.int }

abbrev pub header-IsDllist : IsDllist heap header three
header-IsDllist = record {
  first = refl;
  last = refl;
  size = refl;
  distinct = (suc_ne 0, refl, (suc_ne 1, refl, (suc_ne 2, refl, tt)));
  before = 0;
  after = 0;
  chain = (refl, (refl, (refl, tt)));
}

-- One node, at address 3.
abbrev pub single_heap : Heap
single_heap = record {
  cell = λ a. if a == 3 then some (node NodeType.int 0 0 13) else none;
  live = λ a. true;
}

abbrev pub single : Dllist
single = record { first = 3; last = 3; size = 1; type = NodeType.int }

abbrev pub single-IsDllist : IsDllist single_heap single ((3, 13) ∷ [])
single-IsDllist = record {
  first = refl;
  last = refl;
  size = refl;
  distinct = (suc_ne 2, refl, tt);
  before = 0;
  after = 0;
  chain = (refl, tt);
}

abbrev pub four : Fresh
four = record { address = 4; next = 99; prev = 98 }

abbrev pub five : Fresh
five = record { address = 5; next = 97; prev = 96 }

pub four-IsFresh : IsFresh heap four
four-IsFresh = record { not_null = ground arith; unused = refl }

pub data-IsAccepted : IsAccepted header NodeType.int 14
data-IsAccepted = record { not_null = ground arith; same_type = refl }
