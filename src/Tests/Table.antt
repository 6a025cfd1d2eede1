-- ===== src/Tests/Table.antt =====
-- A map as an association list, to run the tests on.
use s6_projet_reseau.Common.{
  ◌≡◌, ◌≢◌, refl, Bool, true, false, inl, inr, Bool-cases, Option, none, some, List, [], ◌∷◌, All,
  if◌then◌else◌,
}
use s6_projet_reseau.Neighbours.{Key, MapLib, IsMapLib}
use s6_projet_reseau.MsgList.{same_text}
use s6_projet_reseau.MsgList.Text.{same_text_self, eq_of_same_text, not_same_text, same_text_comm}

module _ {V : Type 0} where
  abbrev get : List (Key × V) → Key → Option V
  get [] k = none
  get ((j, v) ∷ m) k = if same_text k j then some v else get m k

  abbrev remove : List (Key × V) → Key → List (Key × V)
  remove [] k = []
  remove ((j, v) ∷ m) k = let rest = remove m k in if same_text j k then rest else (j, v) ∷ rest

  abbrev keys : List (Key × V) → List Key
  keys [] = []
  keys ((j, v) ∷ m) = j ∷ keys m

  abbrev pub table : MapLib V (List (Key × V))
  table = record {
    map_init = [];
    map_get = get;
    map_set = λ m k v. (k, v) ∷ remove m k;
    map_remove = remove;
    map_keys = keys;
  }

  get-remove : (m : List (Key × V)) (k : Key) → get (remove m k) k ≡ none
  get-remove [] k = refl
  get-remove ((j, v) ∷ m) k = elim (Bool-cases (same_text j k)) [
    | inl e ↦ rw e (get-remove m k)
    | inr e ↦ rw (e, same_text_comm k j, e) (get-remove m k)
  ]

  get-remove_ne : (m : List (Key × V)) (k j : Key) → j ≢ k → get (remove m k) j ≡ get m j
  get-remove_ne [] k j ne = refl
  get-remove_ne ((i, v) ∷ m) k j ne = elim (Bool-cases (same_text i k)) [
    | inl e ↦
        rw (e, not_same_text j i (λ z. ne (z_trans z (eq_of_same_text i k e))))
          (get-remove_ne m k j ne)
    | inr e ↦ rw e (step i (get-remove_ne m k j ne))
  ]
    where
      z_trans : j ≡ i → i ≡ k → j ≡ k
      z_trans p q = cc

      step :
          (i : Key)
          → get (remove m k) j ≡ get m j
          → get ((i, v) ∷ remove m k) j ≡ get ((i, v) ∷ m) j
      step i h = rw h refl

  Present : List (Key × V) → Key → Type 0
  Present m k = (v : V) × (get m k ≡ some v)

  Present-cons :
      (m : List (Key × V)) (j : Key) (v : V) (ks : List Key)
      → All (Present m) ks
      → All (Present ((j, v) ∷ m)) ks
  unfolding Present
  Present-cons m j v [] h = tt
  Present-cons m j v (k ∷ ks) ((w, e), h) = (one (same_text k j), Present-cons m j v ks h)
    where
      one : (b : Bool) → (u : V) × ((if b then some v else get m k) ≡ some u)
      one true = (v, refl)
      one false = (w, e)

  keys-Present : (m : List (Key × V)) → All (Present m) (keys m)
  unfolding Present
  keys-Present [] = tt
  keys-Present ((j, v) ∷ m) =
      ((v, rw (same_text_self j) refl), Present-cons m j v (keys m) (keys-Present m))

  pub table-IsMapLib : IsMapLib (table)
  unfolding Present
  table-IsMapLib = record {
    get-init = λ k. refl;
    get-set = λ m k v. rw (same_text_self k) refl;
    get-set_ne = λ m k j v ne. rw (not_same_text j k ne) (get-remove_ne m k j ne);
    get-remove = get-remove;
    get-remove_ne = get-remove_ne;
    keys_present = keys-Present;
  }
