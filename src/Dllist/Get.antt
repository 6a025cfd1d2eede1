-- ===== src/Dllist/Get.antt =====
-- The walk along the links, and dllist_get.
use s6_projet_reseau.Common.{
  ℕ, zero, suc, ◌+◌, ◌%◌, ◌^◌, ◌<◌, ◌≤◌, ◌≡◌, refl, sym, ap, ◌∙◌, arith, true, false, [], ◌∷◌, ◌==◌,
  ltb, leb, lt→ltb, length, ◌&&◌, ne→not_==, ◌⊎◌, inl, inr, Bool-cases,
}
use s6_projet_reseau.Common.Run.{ok}
use s6_projet_reseau.Store.{Ptr, null, NodeType, Heap}
use s6_projet_reseau.Store.Steps.{load-ok}
use s6_projet_reseau.Dllist.{
  Dllist, follow, walk, dllist_is_empty, minus_pred, content_of, dllist_get,
}
use s6_projet_reseau.Dllist.Seg.{Items, first_of, last_of, Distinct, Seg}
use s6_projet_reseau.Dllist.Removed.{not_empty}
use s6_projet_reseau.Dllist.Rep.{IsDllist}

-- The address and the data of the element at an index; null if there is none.
abbrev pub address_at : Items → ℕ → Ptr
address_at [] i = null
address_at ((p, d) ∷ xs) zero = p
address_at ((p, d) ∷ xs) (suc i) = address_at xs i

abbrev pub content_at : Items → ℕ → Ptr
content_at [] i = null
content_at ((p, d) ∷ xs) zero = d
content_at ((p, d) ∷ xs) (suc i) = content_at xs i

abbrev pub last_content : Items → Ptr
last_content [] = null
last_content ((p, d) ∷ []) = d
last_content (x ∷ y ∷ xs) = last_content (y ∷ xs)

follow-address_at :
    (h : Heap) (t : NodeType) (before : Ptr) (xs : Items) (after after' : Ptr) (i : ℕ)
    → Seg h.cell t before xs after
    → Distinct xs
    → i < length xs
    → follow i (first_of xs after') h ≡ ok (address_at xs i, h)
unfolding follow
follow-address_at h t before [] after after' i s k lt = absurd (omega arith)
follow-address_at h t before ((p, d) ∷ xs) after after' zero s k lt = refl
follow-address_at h t before ((p, d) ∷ xs) after after' (suc i) s k lt =
    rw (load-ok h p _ k.0 s.0) (follow-address_at h t p xs after after i s.1 k.2 (omega arith))

pub walk-address_at :
    (h : Heap) (t : NodeType) (before : Ptr) (xs : Items) (after after' : Ptr) (i : ℕ)
    → Seg h.cell t before xs after
    → Distinct xs
    → i < length xs
    → i < 2 ^ 31
    → walk i (first_of xs after') h ≡ ok (address_at xs i, h)
unfolding walk
walk-address_at h t before xs after after' i s k lt small =
    rw (lt→ltb i (2 ^ 31) small) (follow-address_at h t before xs after after' i s k lt)

-- The node at an index holds the data at that index.
pub content_of-at :
    (h : Heap) (t : NodeType) (before : Ptr) (xs : Items) (after : Ptr) (i : ℕ)
    → Seg h.cell t before xs after
    → Distinct xs
    → i < length xs
    → content_of (address_at xs i) h ≡ ok (content_at xs i, h)
unfolding content_of
content_of-at h t before [] after i s k lt = absurd (omega arith)
content_of-at h t before ((p, d) ∷ xs) after zero s k lt = rw (load-ok h p _ k.0 s.0)
content_of-at h t before ((p, d) ∷ xs) after (suc i) s k lt =
    content_of-at h t p xs after i s.1 k.2 (omega arith)

content_of-last :
    (h : Heap) (t : NodeType) (before p d : Ptr) (xs : Items) (after : Ptr)
    → Seg h.cell t before ((p, d) ∷ xs) after
    → Distinct ((p, d) ∷ xs)
    → content_of (last_of p xs) h ≡ ok (last_content ((p, d) ∷ xs), h)
unfolding content_of
content_of-last h t before p d [] after s k = rw (load-ok h p _ k.0 s.0)
content_of-last h t before p d ((q, e) ∷ xs) after s k = content_of-last h t p q e xs after s.1 k.2

last_content-at :
    (p d : Ptr) (xs : Items) → last_content ((p, d) ∷ xs) ≡ content_at ((p, d) ∷ xs) (length xs)
last_content-at p d [] = refl
last_content-at p d ((q, e) ∷ xs) = last_content-at q e xs

content_at-null : (xs : Items) (i : ℕ) → length xs ≤ i → content_at xs i ≡ null
content_at-null [] i h = refl
content_at-null ((p, d) ∷ xs) zero h = absurd (omega arith)
content_at-null ((p, d) ∷ xs) (suc i) h = content_at-null xs i (omega arith)

-- The outcome of dllist_get: at index 0 the last element.
abbrev pub got : Items → ℕ → Ptr
got xs zero = last_content xs
got xs (suc i) = content_at xs (suc i)

-- The tests of dllist_get and dllist_remove, on a size that is no object's.
pub no_wrap : (i n : ℕ) → i < n → n < 2 ^ 63 → ((i + 1) % 2 ^ 64 == n) ≡ (i + 1 == n)
no_wrap i n h k = ground arith

pub not_minus_pred : (i n : ℕ) → 0 < i → i < n → n < 2 ^ 63 → (minus_pred i == n) ≡ false
not_minus_pred i n pos h k = ground arith

pub is_inside : (i n : ℕ) → i < n → (ltb 0 i && leb n i) ≡ false
is_inside i n h = ground arith

pub is_end : (i n : ℕ) → n ≡ i + 1 → n < 2 ^ 63 → ((i + 1) % 2 ^ 64 == n) ≡ true
is_end i n e h = ground arith

compare_cases : (a b : ℕ) → (a < b) ⊎ ((a ≡ b) ⊎ (b < a))
compare_cases a b = ground arith

module _ (h : Heap) (l : Dllist) (p d : Ptr) (xs : Items) (is : IsDllist h l ((p, d) ∷ xs))
    (small : suc (length xs) < 2 ^ 31) where
  get_last : content_of l.last h ≡ ok (last_content ((p, d) ∷ xs), h)
  get_last = rw is.last (content_of-last h l.type is.before p d xs is.after is.chain is.distinct)

  get_first : dllist_get l 0 h ≡ ok (last_content ((p, d) ∷ xs), h)
  unfolding dllist_get
  get_first = elim (Bool-cases (1 == l.size)) [
    | inl e ↦ rw (not_empty p d xs is, e) get_last
    | inr e ↦ rw (not_empty p d xs is, e) get_last
  ]

  get_end : (i : ℕ) → i ≡ length xs → dllist_get l i h ≡ ok (last_content ((p, d) ∷ xs), h)
  unfolding dllist_get
  get_end i e =
      rw
        (
          not_empty p d xs is,
          is_inside i l.size (omega (arith, is.size, e)),
          is_end i l.size (omega (arith, is.size, e)) (omega (arith, is.size, e)),
        )
        get_last

  get_walked : (i : ℕ) → i < length xs → walk i l.first h ≡ ok (address_at ((p, d) ∷ xs) i, h)
  get_walked i lt = rw is.first (
      walk-address_at h l.type is.before ((p, d) ∷ xs) is.after null i is.chain is.distinct
        (omega arith) (omega (arith, small)))

  get_between : (i : ℕ) → suc i < length xs → dllist_get l (suc i) h ≡ ok (content_at xs i, h)
  unfolding dllist_get
  get_between i lt =
      rw
        (
          not_empty p d xs is,
          is_inside (suc i) l.size (omega (arith, is.size)),
          no_wrap (suc i) l.size (omega (arith, is.size)) (omega (arith, is.size)),
          ne→not_== (suc i + 1) l.size (λ z. absurd (omega (arith, is.size, z))),
          not_minus_pred (suc i) l.size (omega arith) (omega (arith, is.size))
              (omega (arith, is.size)),
          ne→not_== (suc i) 0 (λ z. absurd (omega (arith, z))),
          get_walked (suc i) lt,
        )
        (content_of-at h l.type is.before ((p, d) ∷ xs) is.after (suc i) is.chain is.distinct
          (omega arith))

  get_behind : (i : ℕ) → length xs < i → dllist_get l i h ≡ ok (null, h)
  unfolding dllist_get
  get_behind i le =
      let behind : (ltb 0 i && leb l.size i) ≡ true = ground (arith, is.size) in
      rw (not_empty p d xs is, behind) refl

  get_cons : (i : ℕ) → dllist_get l i h ≡ ok (got ((p, d) ∷ xs) i, h)
  get_cons zero = get_first
  get_cons (suc i) = elim (compare_cases (suc i) (length xs)) [
    | inl lt ↦ get_between i lt
    | inr (inl e) ↦
        get_end (suc i) e
        ∙ ap (λ c. ok (c, h)) (last_content-at p d xs ∙ ap (content_at ((p, d) ∷ xs)) (sym e))
    | inr (inr gt) ↦
        get_behind (suc i) gt
        ∙ ap (λ c. ok (c, h)) (sym (content_at-null ((p, d) ∷ xs) (suc i) (omega (arith, gt))))
  ]

-- dllist_get on any list of fewer than 2 ^ 31 elements and any index: the heap is unchanged, and the
-- result is the data at the index, or null behind the end; but at index 0 it is the data of the last
-- element.
pub dllist_get-got :
    (h : Heap) (l : Dllist) (xs : Items) (i : ℕ)
    → IsDllist h l xs
    → length xs < 2 ^ 31
    → dllist_get l i h ≡ ok (got xs i, h)
unfolding dllist_get dllist_is_empty
dllist_get-got h l [] zero is small = rw is.first refl
dllist_get-got h l [] (suc i) is small = rw is.first refl
dllist_get-got h l ((p, d) ∷ xs) i is small = get_cons h l p d xs is small i
