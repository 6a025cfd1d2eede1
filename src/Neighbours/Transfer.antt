-- ===== src/Neighbours/Transfer.antt =====
-- map_transfer_neighbour, and the delays of set_time_send.
use s6_projet_reseau.Common.{
  Option, ℕ, zero, suc, ap, ◌∙◌, ◌+◌, ◌*◌, ◌-◌, ◌%◌, ◌^◌, ◌<◌, ◌≤◌, ◌≡◌, ◌≢◌, refl, arith, none,
  some, List,
}
use native.Mathlib.Nat.{mod-lt, pow-succ'}
use s6_projet_reseau.Common.Run.{fault, ok, Returns, returns}
use s6_projet_reseau.Wire.Host.{ByteOrder}
use s6_projet_reseau.Neighbours.{
  Key, NeighbourEntry, MapLib, IsMapLib, entry_key, map_add_neighbour_entry, map_pop_neighbour,
  map_transfer_neighbour, set_time_send,
}

-- The entry `e` has gone from the first map to the second, and nothing else has changed.
pub record Moved {M : Type 0} (lib : MapLib (Option NeighbourEntry) M) (source target : M)
    (key stored : Key) (e : NeighbourEntry) (r : ℕ × M × M) : Type 0 where
  pub done : r.0 ≡ 1
  pub gone : lib.map_get r.1 key ≡ none
  pub there : lib.map_get r.2 stored ≡ some (some e)
  pub source_same : (k : Key) → k ≢ key → lib.map_get r.1 k ≡ lib.map_get source k
  pub target_same : (k : Key) → k ≢ stored → lib.map_get r.2 k ≡ lib.map_get target k

module _ {M : Type 0} (lib : MapLib (Option NeighbourEntry) M) (laws : IsMapLib lib)
    (order : ByteOrder) (decimal : ℕ → List ℕ) where
  pop-ok :
      (m : M) (key : Key) (e : NeighbourEntry)
      → lib.map_get m key ≡ some (some e)
      → map_pop_neighbour lib order decimal m key ≡ ok (some e, lib.map_remove m key)
  unfolding map_pop_neighbour
  pop-ok m key e here = rw (here, map_pop_neighbour) refl

  add-ok :
      (m : M) (e : NeighbourEntry)
      → lib.map_get m (entry_key lib order decimal e) ≡ none
      → map_add_neighbour_entry lib order decimal m e
        ≡ ok (1, lib.map_set m (entry_key lib order decimal e) (some e))
  unfolding map_add_neighbour_entry
  add-ok m e free = rw (free, map_add_neighbour_entry) refl

  pub map_transfer_neighbour-ok :
      (source target : M) (key : Key) (e : NeighbourEntry)
      → lib.map_get source key ≡ some (some e)
      → lib.map_get target (entry_key lib order decimal e) ≡ none
      → map_transfer_neighbour lib order decimal source target key
        ≡ ok (
          1,
          lib.map_remove source key,
          lib.map_set target (entry_key lib order decimal e) (some e),
        )
  unfolding map_transfer_neighbour
  map_transfer_neighbour-ok source target key e here free =
      rw (pop-ok source key e here, add-ok target e free) refl

  pub map_transfer_neighbour-fault :
      (source target : M) (key : Key) (e : NeighbourEntry) (old : Option NeighbourEntry)
      → lib.map_get source key ≡ some (some e)
      → lib.map_get target (entry_key lib order decimal e) ≡ some old
      → map_transfer_neighbour lib order decimal source target key ≡ fault
  unfolding map_transfer_neighbour map_add_neighbour_entry
  map_transfer_neighbour-fault source target key e old here taken =
      rw (pop-ok source key e here, taken, map_add_neighbour_entry) refl

  -- map_transfer_neighbour of a key that is in the first map, where the second has no entry under the
  -- key that the entry is stored under there: the entry is in the second map and no longer in the
  -- first, and the other entries of both maps are as they were.
  pub map_transfer_neighbour-moves :
      (source target : M) (key : Key) (e : NeighbourEntry)
      → lib.map_get source key ≡ some (some e)
      → lib.map_get target (entry_key lib order decimal e) ≡ none
      → Returns
          (Moved lib source target key (entry_key lib order decimal e) e)
          (map_transfer_neighbour lib order decimal source target key)
  map_transfer_neighbour-moves source target key e here free =
      rw (map_transfer_neighbour-ok source target key e here free) (
        returns (record {
          done = refl;
          gone = laws.get-remove source key;
          there = laws.get-set target _ (some e);
          source_same = λ k ne. laws.get-remove_ne source key k ne;
          target_same = λ k ne. laws.get-set_ne target _ k (some e) ne;
        }))

delay_bounds : (now p r : ℕ) → r < p → (now + p ≤ now + (r + p)) × (now + (r + p) < now + p * 2)
delay_bounds now p r h = (omega arith, omega arith)

two_pow_pos : (n : ℕ) → 0 < 2 ^ n
two_pow_pos zero = omega arith
two_pow_pos (suc n) = omega (arith, pow-succ' 2 n, two_pow_pos n)

two_pow : (n : ℕ) → 2 ^ (n + 1) ≡ 2 ^ n * 2
two_pow n =
    let next : n + 1 ≡ suc n = omega arith in
    let swap : 2 * 2 ^ n ≡ 2 ^ n * 2 = omega arith in ap (λ k. 2 ^ k) next ∙ pow-succ' 2 n ∙ swap

-- The time that set_time_send gives after `tries` attempts lies between 2 ^ tries and
-- 2 ^ (tries + 1) seconds from now, whatever the random number is.
pub set_time_send-bounds :
    (random now tries : ℕ)
    → (now + 2 ^ tries ≤ set_time_send random now tries)
      × (set_time_send random now tries < now + 2 ^ (tries + 1))
unfolding set_time_send
set_time_send-bounds random now tries =
    let p = 2 ^ tries in
    let twice : 2 ^ (tries + 1) ≡ p * 2 = two_pow tries in
    let same : p * 2 - p ≡ p = omega arith in
    rw (twice, same) (delay_bounds now p (random % p) (mod-lt random (two_pow_pos tries)))
