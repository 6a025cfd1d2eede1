-- ===== src/Wire/Host.antt =====
-- The byte order of the host, and the conversions to and from network byte order that
-- src/serialization.c uses: those of the C library and the macros htonll and ntohll.
use mathlib.Core.Path.{ap₂}
use s6_projet_reseau.Common.{
  ℕ, ◌+◌, ◌*◌, ◌/◌, ◌%◌, ◌^◌, ◌<◌, ◌≡◌, refl, ap, ◌∙◌, List, [], ◌∷◌, ◌++◌, arith, ◌==◌,
  if◌then◌else◌, All, IsByte, le_bytes, be_bytes, le_value, be_value, cons_path, length-be_bytes,
  be_bytes-IsByte, le_bytes-le_value, be_value-be_bytes,
}

pub data ByteOrder : Type 0 where
  little big : ByteOrder

-- What memcpy copies out of an unsigned integer object of `n` bytes that holds `x`.
abbrev pub mem_bytes : ByteOrder → ℕ → ℕ → List ℕ
mem_bytes little n x = le_bytes n x
mem_bytes big n x = be_bytes n x

-- The integer in an object into which memcpy has copied the bytes `bs`.
abbrev pub mem_value : ByteOrder → List ℕ → ℕ
mem_value little bs = le_value bs
mem_value big bs = be_value bs

-- htons, htonl and their inverses on `n` bytes: a little-endian host swaps the bytes.
abbrev pub hton : ByteOrder → ℕ → ℕ → ℕ
hton little n x = be_value (le_bytes n x)
hton big n x = x

unfoldable pub htonll : ByteOrder → ℕ → ℕ
htonll o x =
    if hton o 4 1 == 1 then x else hton o 4 (x % 2 ^ 32) * 2 ^ 32 + hton o 4 (x / 2 ^ 32 % 2 ^ 32)

unfoldable pub ntohll : ByteOrder → ℕ → ℕ
ntohll o x =
    if hton o 4 1 == 1 then x else hton o 4 (x % 2 ^ 32) * 2 ^ 32 + hton o 4 (x / 2 ^ 32 % 2 ^ 32)

-- Swapping four bytes, in memory.
le_four :
    (a b c d : ℕ)
    → IsByte a
    → IsByte b
    → IsByte c
    → IsByte d
    → le_bytes 4 (be_value (a ∷ b ∷ c ∷ d ∷ [])) ≡ d ∷ c ∷ b ∷ a ∷ []
le_four a b c d ha hb hc hd =
    cons_path (omega arith)
      (cons_path (omega arith) (cons_path (omega arith) (cons_path (omega arith) refl)))

be_four :
    (x : ℕ)
    → be_bytes 4 x
      ≡ (x / 256 / 256 / 256 % 256) ∷ (x / 256 / 256 % 256) ∷ (x / 256 % 256) ∷ (x % 256) ∷ []
be_four x = refl

le_bytes-hton_two : (x : ℕ) → le_bytes 2 (hton little 2 x) ≡ be_bytes 2 x
le_bytes-hton_two x = cons_path (omega arith) (cons_path (omega arith) refl)

le_bytes-hton_four : (x : ℕ) → le_bytes 4 (hton little 4 x) ≡ be_bytes 4 x
le_bytes-hton_four x = le_four _ _ _ _ (omega arith) (omega arith) (omega arith) (omega arith)

le_bytes_halves :
    (hi lo : ℕ) → lo < 2 ^ 32 → le_bytes 8 (hi * 2 ^ 32 + lo) ≡ le_bytes 4 lo ++ le_bytes 4 hi
le_bytes_halves hi lo h = cons_path (omega arith) (
    cons_path (omega arith) (
      cons_path (omega arith) (
        cons_path (omega arith) (
          cons_path (omega arith)
            (cons_path (omega arith) (cons_path (omega arith) (cons_path (omega arith) refl)))))))

be_bytes_halves :
    (x : ℕ) → be_bytes 4 (x / 2 ^ 32 % 2 ^ 32) ++ be_bytes 4 (x % 2 ^ 32) ≡ be_bytes 8 x
be_bytes_halves x = cons_path (omega arith) (
    cons_path (omega arith) (
      cons_path (omega arith) (
        cons_path (omega arith) (
          cons_path (omega arith)
            (cons_path (omega arith) (cons_path (omega arith) (cons_path (omega arith) refl)))))))

be_value-lt :
    (a b c d : ℕ)
    → IsByte a
    → IsByte b
    → IsByte c
    → IsByte d
    → be_value (a ∷ b ∷ c ∷ d ∷ []) < 2 ^ 32
be_value-lt a b c d ha hb hc hd = omega arith

hton_four-lt : (x : ℕ) → hton little 4 x < 2 ^ 32
hton_four-lt x = be_value-lt _ _ _ _ (omega arith) (omega arith) (omega arith) (omega arith)

-- On either host the bytes of a converted integer are in network order.
pub mem_bytes-htons : (o : ByteOrder) (x : ℕ) → mem_bytes o 2 (hton o 2 x) ≡ be_bytes 2 x
mem_bytes-htons little x = le_bytes-hton_two x
mem_bytes-htons big x = refl

pub mem_bytes-htonl : (o : ByteOrder) (x : ℕ) → mem_bytes o 4 (hton o 4 x) ≡ be_bytes 4 x
mem_bytes-htonl little x = le_bytes-hton_four x
mem_bytes-htonl big x = refl

-- What memcpy copies out of an integer that htonll has converted is the integer in network order,
-- on a host of either byte order.
pub mem_bytes-htonll : (o : ByteOrder) (x : ℕ) → mem_bytes o 8 (htonll o x) ≡ be_bytes 8 x
unfolding htonll
mem_bytes-htonll little x =
    le_bytes_halves _ _ (hton_four-lt (x / 2 ^ 32 % 2 ^ 32))
    ∙ ap₂ (λ a b. a ++ b) (le_bytes-hton_four _) (le_bytes-hton_four _)
    ∙ be_bytes_halves x
mem_bytes-htonll big x = refl

-- The conversions back read the network order, on either host.
pub ntoh-be_bytes :
    (o : ByteOrder) (n x : ℕ) → x < 256 ^ n → hton o n (mem_value o (be_bytes n x)) ≡ x
ntoh-be_bytes little n x h =
    ap be_value
      (rw (length-be_bytes n x) at (le_bytes-le_value (be_bytes n x) (be_bytes-IsByte n x)))
    ∙ be_value-be_bytes n x h
ntoh-be_bytes big n x h = be_value-be_bytes n x h

swap_four :
    (a b c d : ℕ)
    → All IsByte (a ∷ b ∷ c ∷ d ∷ [])
    → hton little 4 (le_value (a ∷ b ∷ c ∷ d ∷ [])) ≡ be_value (a ∷ b ∷ c ∷ d ∷ [])
swap_four a b c d hs = ap be_value (le_bytes-le_value (a ∷ b ∷ c ∷ d ∷ []) hs)

ntohll_eight :
    (a b c d e f g h : ℕ)
    → All IsByte (a ∷ b ∷ c ∷ d ∷ e ∷ f ∷ g ∷ h ∷ [])
    → ntohll little (le_value (a ∷ b ∷ c ∷ d ∷ e ∷ f ∷ g ∷ h ∷ []))
      ≡ be_value (a ∷ b ∷ c ∷ d ∷ e ∷ f ∷ g ∷ h ∷ [])
unfolding ntohll
ntohll_eight a b c d e f g h hs =
    let v = le_value (a ∷ b ∷ c ∷ d ∷ e ∷ f ∷ g ∷ h ∷ []) in
    let lo : v % 2 ^ 32 ≡ le_value (a ∷ b ∷ c ∷ d ∷ []) = omega arith in
    let hi : v / 2 ^ 32 % 2 ^ 32 ≡ le_value (e ∷ f ∷ g ∷ h ∷ []) = omega arith in
    omega (
      arith,
      ap (hton little 4) lo ∙ swap_four a b c d (omega arith),
      ap (hton little 4) hi ∙ swap_four e f g h (omega arith),
    )

-- memcpy of eight bytes in network order into an integer, and ntohll of it, give the number of 64
-- bits that the bytes stand for, on a host of either byte order.
pub ntohll-be_bytes :
    (o : ByteOrder) (x : ℕ) → x < 256 ^ 8 → ntohll o (mem_value o (be_bytes 8 x)) ≡ x
ntohll-be_bytes little x h =
    ntohll_eight _ _ _ _ _ _ _ _ (be_bytes-IsByte 8 x) ∙ be_value-be_bytes 8 x h
ntohll-be_bytes big x h = unfold ntohll in be_value-be_bytes 8 x h
