-- ===== src/MsgList/Text.antt =====
-- The comparison of the keys of messages, by strncmp of at most 20 bytes: it is equality.
use s6_projet_reseau.Common.{
  ℕ, ◌≡◌, ◌≢◌, refl, true, false, ◌⊎◌, inl, inr, Bool-cases, List, [], ◌∷◌, arith,
}
use s6_projet_reseau.MsgList.{same_text}

pub same_text_self : (k : List ℕ) → same_text k k ≡ true
same_text_self [] = refl
same_text_self (x ∷ xs) = ground (arith, same_text_self xs)

pub eq_of_same_text : (j k : List ℕ) → same_text j k ≡ true → j ≡ k
eq_of_same_text [] [] h = refl
eq_of_same_text [] (y ∷ ys) h = cc
eq_of_same_text (x ∷ xs) [] h = cc
eq_of_same_text (x ∷ xs) (y ∷ ys) h =
    let head : x ≡ y = ground arith in
    let tail : xs ≡ ys = eq_of_same_text xs ys (ground arith) in cc

pub not_same_text : (j k : List ℕ) → j ≢ k → same_text j k ≡ false
not_same_text j k ne = elim (Bool-cases (same_text j k)) [
  | inl e ↦ absurd (ne (eq_of_same_text j k e))
  | inr e ↦ e
]

pub same_text_comm : (j k : List ℕ) → same_text j k ≡ same_text k j
same_text_comm [] [] = refl
same_text_comm [] (y ∷ ys) = refl
same_text_comm (x ∷ xs) [] = refl
same_text_comm (x ∷ xs) (y ∷ ys) = ground (arith, same_text_comm xs ys)

pub key-cases : (j k : List ℕ) → (j ≡ k) ⊎ (j ≢ k)
key-cases j k = elim (Bool-cases (same_text j k)) [
  | inl e ↦ inl (eq_of_same_text j k e)
  | inr e ↦ inr (λ p. let q : same_text j k ≡ true = rw p (same_text_self k) in cc)
]
