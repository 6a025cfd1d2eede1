-- ===== src/Neighbours.antt =====
-- The neighbours: src/neighbour_map.c, and their entries and keys in src/types.c. The hash map is
-- another project's; it is taken as a record of its calls.
pub mod Transfer
use s6_projet_reseau.Common.{
  Bool, [], if◌then◌else◌, ℕ, ◌+◌, ◌-◌, ◌%◌, ◌^◌, ◌≡◌, ◌≢◌, Option, none, some, List, ◌++◌, take,
  All,
}
use s6_projet_reseau.Common.Run.{Run, ok, fault, ◌>>=◌}
use s6_projet_reseau.Store.{NodeType}
use s6_projet_reseau.Dllist.{Dllist, new_dllist}
use s6_projet_reseau.Wire.Types.{DataBody, Sockaddr}
use s6_projet_reseau.Wire.Free.{Object, free_data_body}
use s6_projet_reseau.Wire.Host.{ByteOrder, hton}

-- A key, which is a string.
abbrev pub Key : Type 0
Key = List ℕ

pub record NeighbourEntry : Type 0 where
  pub addr : Sockaddr
  pub last_short_hello : ℕ
  pub last_long_hello : ℕ
  pub pmtu : ℕ
  pub msg_to_send : Dllist

-- The calls of a map `M` with values `V`; map_keys is the order in which map_next goes through it.
pub record MapLib (V M : Type 0) : Type 0 where
  pub map_init : M
  pub map_get : M → Key → Option V
  pub map_set : M → Key → V → M
  pub map_remove : M → Key → M
  pub map_keys : M → List Key

-- What its documentation promises.
pub record IsMapLib {V M : Type 0} (lib : MapLib V M) : Type 0 where
  pub get-init : (k : Key) → lib.map_get lib.map_init k ≡ none
  pub get-set : (m : M) (k : Key) (v : V) → lib.map_get (lib.map_set m k v) k ≡ some v
  pub get-set_ne :
      (m : M) (k j : Key) (v : V) → j ≢ k → lib.map_get (lib.map_set m k v) j ≡ lib.map_get m j
  pub get-remove : (m : M) (k : Key) → lib.map_get (lib.map_remove m k) k ≡ none
  pub get-remove_ne :
      (m : M) (k j : Key) → j ≢ k → lib.map_get (lib.map_remove m k) j ≡ lib.map_get m j
  pub keys_present : (m : M) → All (λ k. (v : V) × (lib.map_get m k ≡ some v)) (lib.map_keys m)

unfoldable pub new_neighbour_entry : Sockaddr → NeighbourEntry
new_neighbour_entry addr = record {
  addr = addr;
  last_short_hello = 0;
  last_long_hello = 0;
  pmtu = 1024;
  msg_to_send = new_dllist NodeType.msg;
}

-- `decimal` is what snprintf prints for `%u`. The key has room for 46 + 2 + 1 bytes, with the zero.
unfoldable pub new_neighbour_key : (ℕ → List ℕ) → List ℕ → ℕ → Key
new_neighbour_key decimal ip port = take 48 (ip ++ decimal port)

unfoldable pub new_neighbour_key_sock : (ℕ → List ℕ) → Sockaddr → Key
new_neighbour_key_sock decimal s = new_neighbour_key decimal s.ip s.sin6_port

-- The first time at which a message is sent again: `random` and `now` are what random() and
-- time(NULL) return.
unfoldable pub set_time_send : ℕ → ℕ → ℕ → ℕ
set_time_send random now tries = now + (random % (2 ^ (tries + 1) - 2 ^ tries) + 2 ^ tries)

pub record DllistMsg : Type 0 where
  pub tries : ℕ
  pub map_key : Key
  pub time_send : ℕ
  pub body : DataBody

unfoldable pub new_dllist_msg : ℕ → ℕ → Key → DataBody → DllistMsg
new_dllist_msg random now key body = record {
  tries = 0;
  map_key = key;
  time_send = set_time_send random now 0;
  body = body;
}

-- The objects that are freed beside the entry itself.
unfoldable pub free_dllist_msg : DllistMsg → Bool → List Object
unfolding free_data_body
free_dllist_msg m content = if content then free_data_body m.body else []

-- `print_long` and `print_int` are what snprintf prints for `%ld` and `%d`. The key has room for 20
-- bytes, with the zero.
unfoldable pub new_data_key : (ℕ → List ℕ) → (ℕ → List ℕ) → ℕ → ℕ → Key
new_data_key print_long print_int id nonce = take 19 (print_long id ++ print_int nonce)

-- The value of a key is a pointer to an entry, which may be null.
module _ {M : Type 0} (lib : MapLib (Option NeighbourEntry) M) (order : ByteOrder)
    (decimal : ℕ → List ℕ) where
  -- The key that an entry is stored under.
  abbrev pub entry_key : NeighbourEntry → Key
  entry_key e = new_neighbour_key decimal e.addr.ip (hton order 2 e.addr.sin6_port)

  -- At its end it frees the pointer that map_get returned, which is null, or points into the map
  -- and is not from malloc.
  unfoldable pub map_add_neighbour_entry : M → NeighbourEntry → Run (ℕ × M)
  map_add_neighbour_entry map e = elim (lib.map_get map (entry_key e)) [
    | some entry ↦ fault
    | none ↦ ok (1, lib.map_set map (entry_key e) (some e))
  ]

  -- A key that is not there makes map_get return null, which is read.
  unfoldable pub map_pop_neighbour : M → Key → Run (Option NeighbourEntry × M)
  map_pop_neighbour map key = elim (lib.map_get map key) [
    | none ↦ fault
    | some none ↦ ok (none, map)
    | some (some e) ↦ ok (some e, lib.map_remove map key)
  ]

  unfoldable pub map_delete_entry : M → List ℕ → ℕ → Run M
  map_delete_entry map ip port = elim (lib.map_get map (new_neighbour_key decimal ip port)) [
    | none ↦ fault
    | some none ↦ ok map
    | some (some e) ↦ ok (lib.map_remove map (new_neighbour_key decimal ip port))
  ]

  -- The result is that of map_add_neighbour_entry, with the two maps.
  unfoldable pub map_transfer_neighbour : M → M → Key → Run (ℕ × M × M)
  map_transfer_neighbour source target key = do
    (entry, source) ← map_pop_neighbour source key
    elim entry [
      | none ↦ ok (0, source, target)
      | some e ↦ (do (added, target) ← map_add_neighbour_entry target e; ok (added, source, target))
    ]
