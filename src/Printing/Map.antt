-- ===== src/Printing/Map.antt =====
-- print_neighbour_map reads inside its objects.
use s6_projet_reseau.Common.{
  ℕ, zero, suc, ◌≡◌, refl, ap, ◌∙◌, true, ◌&&◌, Option, none, some, List, [], ◌∷◌, ◌++◌, ◌==◌, All,
  Bool-cases, inl, inr,
}
use s6_projet_reseau.Common.Text.{c_prefix}
use s6_projet_reseau.Wire.Host.{ByteOrder}
use s6_projet_reseau.Neighbours.{Key, NeighbourEntry, MapLib, IsMapLib}
use s6_projet_reseau.Printing.{Printf, print_neighbour_entry, print_keys, print_neighbour_map}
use s6_projet_reseau.Printing.Messages.{is_ok, is_ok-map, is_ok-both}

-- A string of any length is read up to its zero.
is_ok-c_prefix_zero : (n : ℕ) (cs : List ℕ) → is_ok (c_prefix n (cs ++ (0 ∷ []))) ≡ true
unfolding c_prefix
is_ok-c_prefix_zero zero cs = refl
is_ok-c_prefix_zero (suc n) [] = refl
is_ok-c_prefix_zero (suc n) (c ∷ cs) = elim (Bool-cases (c == 0)) [
  | inl e ↦ rw e refl
  | inr e ↦ rw e (is_ok-map (c_prefix n (cs ++ (0 ∷ []))) _ ∙ is_ok-c_prefix_zero n cs)
]

module _ (printf : Printf) (order : ByteOrder) where
  print_neighbour_entry-is_ok :
      (e : NeighbourEntry) → is_ok (print_neighbour_entry printf order e) ≡ true
  unfolding print_neighbour_entry
  print_neighbour_entry-is_ok e =
      is_ok-map (c_prefix 16 (e.addr.ip ++ (0 ∷ []))) _ ∙ is_ok-c_prefix_zero 16 e.addr.ip

  module _ {M : Type 0} (lib : MapLib (Option NeighbourEntry) M) (m : M) where
    print_keys-is_ok :
        (keys : List Key)
        → All (λ k. (v : Option NeighbourEntry) × (lib.map_get m k ≡ some v)) keys
        → is_ok (print_keys printf lib order m keys) ≡ true
    unfolding print_keys
    print_keys-is_ok [] all = refl
    print_keys-is_ok (key ∷ keys) ((some e, there), all) = rw there (
        is_ok-both (print_neighbour_entry printf order e) (print_keys printf lib order m keys) _
        ∙ ap (λ b. b && is_ok (print_keys printf lib order m keys)) (print_neighbour_entry-is_ok e)
        ∙ print_keys-is_ok keys all)
    print_keys-is_ok (key ∷ keys) ((none, there), all) =
        rw there (is_ok-map (print_keys printf lib order m keys) _ ∙ print_keys-is_ok keys all)

    -- Over a hash map as documented print_neighbour_map prints every map without a fault, one with null
    -- entries too.
    pub print_neighbour_map-is_ok :
        IsMapLib lib → is_ok (print_neighbour_map printf lib order m) ≡ true
    unfolding print_neighbour_map
    print_neighbour_map-is_ok laws =
        is_ok-map (print_keys printf lib order m (lib.map_keys m)) _
        ∙ print_keys-is_ok (lib.map_keys m) (laws.keys_present m)
