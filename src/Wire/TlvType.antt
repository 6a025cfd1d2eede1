-- ===== src/Wire/TlvType.antt =====
-- The enumeration TLV_TYPE of src/types.h. TLV_UNDEFINED, which is -1, is in no unsigned byte.
use s6_projet_reseau.Common.{ℕ}

abbrev pub pad1 : ℕ
pad1 = 0

abbrev pub padn : ℕ
padn = 1

abbrev pub hello : ℕ
hello = 2

abbrev pub neighbour : ℕ
neighbour = 3

abbrev pub content : ℕ
content = 4

abbrev pub ack : ℕ
ack = 5

abbrev pub go_away : ℕ
go_away = 6

abbrev pub warning : ℕ
warning = 7
