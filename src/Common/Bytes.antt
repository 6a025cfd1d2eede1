-- ===== src/Common/Bytes.antt =====
-- The value of a sequence of bytes, least or most significant byte first, and the bytes of a value.
use Prim.Native.Nat.{ℕ, zero, suc, ◌+◌, ◌*◌, ◌/◌, ◌%◌, ◌^◌, ◌<◌}
use mathlib.Core.Path.{◌≡◌, refl, ap, ap₂}
use mathlib.Core.List.{List, [], ◌∷◌, ◌++◌}
use native.Mathlib.Omega.{arith}
use native.Mathlib.Nat.{pow-suc}
use s6_projet_reseau.Common.Lists.{length, length-append, All}

abbrev pub IsByte : ℕ → Type 0
IsByte b = b < 256

-- The `n` low bytes of `x`.
abbrev pub le_bytes : ℕ → ℕ → List ℕ
le_bytes zero x = []
le_bytes (suc n) x = (x % 256) ∷ le_bytes n (x / 256)

abbrev pub be_bytes : ℕ → ℕ → List ℕ
be_bytes zero x = []
be_bytes (suc n) x = be_bytes n (x / 256) ++ ((x % 256) ∷ [])

abbrev pub le_value : List ℕ → ℕ
le_value [] = 0
le_value (b ∷ bs) = b + 256 * le_value bs

abbrev pub be_value_from : ℕ → List ℕ → ℕ
be_value_from acc [] = acc
be_value_from acc (b ∷ bs) = be_value_from (acc * 256 + b) bs

abbrev pub be_value : List ℕ → ℕ
be_value bs = be_value_from 0 bs

pub cons_path {ℓ} : {A : Type ℓ} {a b : A} {xs ys : List A} → a ≡ b → xs ≡ ys → a ∷ xs ≡ b ∷ ys
cons_path p q = ap₂ (λ a xs. a ∷ xs) p q

pub length-le_bytes : (n x : ℕ) → length (le_bytes n x) ≡ n
length-le_bytes zero x = refl
length-le_bytes (suc n) x = ap suc (length-le_bytes n (x / 256))

pub length-be_bytes : (n x : ℕ) → length (be_bytes n x) ≡ n
length-be_bytes zero x = refl
length-be_bytes (suc n) x =
    omega
      (arith, length-append (be_bytes n (x / 256)) ((x % 256) ∷ []), length-be_bytes n (x / 256))

All-append : (xs ys : List ℕ) → All IsByte xs → All IsByte ys → All IsByte (xs ++ ys)
All-append [] ys hx hy = hy
All-append (x ∷ xs) ys hx hy = (hx.0, All-append xs ys hx.1 hy)

pub be_bytes-IsByte : (n x : ℕ) → All IsByte (be_bytes n x)
be_bytes-IsByte zero x = tt
be_bytes-IsByte (suc n) x =
    All-append (be_bytes n (x / 256)) _ (be_bytes-IsByte n (x / 256)) (omega arith, tt)

pub le_bytes-le_value : (bs : List ℕ) → All IsByte bs → le_bytes (length bs) (le_value bs) ≡ bs
le_bytes-le_value [] h = refl
le_bytes-le_value (b ∷ bs) h =
    let q : (b + 256 * le_value bs) / 256 ≡ le_value bs = omega (arith, h.0) in
    let r : (b + 256 * le_value bs) % 256 ≡ b = omega (arith, h.0) in
    cons_path r (rw q (le_bytes-le_value bs h.1))

be_value_from-snoc :
    (acc : ℕ) (xs : List ℕ) (b : ℕ)
    → be_value_from acc (xs ++ (b ∷ [])) ≡ be_value_from acc xs * 256 + b
be_value_from-snoc acc [] b = refl
be_value_from-snoc acc (x ∷ xs) b = be_value_from-snoc (acc * 256 + x) xs b

pub be_value-be_bytes : (n x : ℕ) → x < 256 ^ n → be_value (be_bytes n x) ≡ x
be_value-be_bytes zero x h = omega arith
be_value-be_bytes (suc n) x h = omega (
  arith,
  be_value_from-snoc 0 (be_bytes n (x / 256)) (x % 256),
  be_value-be_bytes n (x / 256) (omega (arith, pow-suc 256 n)),
)
