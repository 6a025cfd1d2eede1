-- ===== src/Wire/Dserial/Parse.antt =====
-- What a reader does when the bytes that it wants lie ahead: the value, and the position behind them.
use s6_projet_reseau.Common.{
  ℕ, ◌+◌, ◌<◌, ◌^◌, ◌≡◌, refl, sym, ap, ◌∙◌, arith, List, [], ◌∷◌, ◌++◌, length, length-append,
  length-drop, take, drop, take-append, drop-append, drop-drop, be_bytes, le→leb,
}
use s6_projet_reseau.Common.Run
use s6_projet_reseau.Common.Run.{Run, ok, ◌>>=◌, Returns, returns}
use s6_projet_reseau.Wire.Host.{ByteOrder, little, big, mem_value, ntoh-be_bytes, ntohll-be_bytes}
use s6_projet_reseau.Wire.Machine.{Machine}
use s6_projet_reseau.Wire.Sbuff.{Sbuff, get_bytes}
use s6_projet_reseau.Wire.Dserial.{
  dserial_char, dserial_short, dserial_int, dserial_long, dserial_chars,
}

-- The bytes from the position to the end of the object.
abbrev pub ahead : Sbuff → List ℕ
ahead b = drop b.next b.block

-- `c` is `b` with its position moved behind `bs`, where `rest` lies.
pub record Took (b : Sbuff) (bs rest : List ℕ) (c : Sbuff) : Type 0 where
  pub left : ahead c ≡ rest
  pub moved : c.next ≡ b.next + length bs
  pub same : c.real_size ≡ b.real_size
  pub held : c.block ≡ b.block

-- The result is `x`, read from the bytes `bs`.
abbrev pub Gives : {A : Type 0} → A → Sbuff → List ℕ → List ℕ → A × Sbuff → Type 0
Gives x b bs rest (y, c) = (y ≡ x) × Took b bs rest c

module _ (b : Sbuff) (rest : List ℕ) where
  get_bytes-Gives :
      (bs : List ℕ)
      → 0 < length bs
      → ahead b ≡ bs ++ rest
      → Returns (Gives bs b bs rest) (get_bytes (length bs) b)
  unfolding get_bytes
  get_bytes-Gives bs pos h =
      let total : length (ahead b) ≡ length bs + length rest =
        ap length h ∙ length-append bs rest in
      rw
        (le→leb (b.next + length bs) (length b.block)
          (omega (arith, total, length-drop b.next b.block)))
        (returns (
          ap (take (length bs)) h ∙ take-append bs rest,
          record {
            left =
                sym (drop-drop b.next (length bs) b.block)
                ∙ ap (drop (length bs)) h
                ∙ drop-append bs rest;
            moved = refl;
            same = refl;
            held = refl;
          },
        ))

-- A reader and what follows it.
pub Gives-step :
    {A B : Type 0} {x : A} {y : B} {b : Sbuff} {xs ys rest : List ℕ} {r : Run (A × Sbuff)}
    (k : A × Sbuff → Run (B × Sbuff))
    → Returns (Gives x b xs (ys ++ rest)) r
    → ((c : Sbuff) → Took b xs (ys ++ rest) c → Returns (Gives y c ys rest) (k (x, c)))
    → Returns (Gives y b (xs ++ ys) rest) (r >>= k)
Gives-step {xs} {ys} k p next = Run.bind p λ (v, c) (e, t). rw e (
    Run.mono (next c t) λ (w, d) (e', t'). (
      e',
      record {
        left = t'.left;
        moved = omega (arith, t.moved, t'.moved, length-append xs ys);
        same = t'.same ∙ t.same;
        held = t'.held ∙ t.held;
      },
    ))

pub Gives-bind :
    {A B : Type 0} {x : A} {y : B} {b : Sbuff} {xs ys rest : List ℕ} {r : Run (A × Sbuff)}
    (k : A × Sbuff → Run (B × Sbuff))
    → Returns (Gives x b xs (ys ++ rest)) r
    → ((c : Sbuff) → ahead c ≡ ys ++ rest → Returns (Gives y c ys rest) (k (x, c)))
    → Returns (Gives y b (xs ++ ys) rest) (r >>= k)
Gives-bind k p next = Gives-step k p λ c t. next c t.left

-- A result that is made from another.
pub Gives-map :
    {A B : Type 0} {x : A} {b : Sbuff} {xs rest : List ℕ} {r : Run (A × Sbuff)} (f : A → B)
    → Returns (Gives x b xs rest) r
    → Returns (Gives (f x) b xs rest) (r >>= λ (v, c). ok (f v, c))
Gives-map f p = Run.bind p λ (v, c) (e, t). returns (ap f e, t)

pub Gives-ok :
    {A : Type 0} (x : A) (b : Sbuff) (rest : List ℕ)
    → ahead b ≡ rest
    → Returns (Gives x b [] rest) (ok (x, b))
Gives-ok x b rest h =
    returns (refl, record { left = h; moved = omega arith; same = refl; held = refl })

mem_value_one : (o : ByteOrder) (c : ℕ) → mem_value o (c ∷ []) ≡ c
mem_value_one little c = omega arith
mem_value_one big c = omega arith

-- The value read is a function of the bytes read.
get_bytes-map :
    (b : Sbuff) (rest bs : List ℕ) (f : List ℕ → ℕ) (x : ℕ)
    → f bs ≡ x
    → 0 < length bs
    → ahead b ≡ bs ++ rest
    → Returns (Gives x b bs rest) (get_bytes (length bs) b >>= λ (cs, c). ok (f cs, c))
get_bytes-map b rest bs f x e pos h =
    Run.bind (get_bytes-Gives b rest bs pos h) λ (v, c) (e', t). returns (ap f e' ∙ e, t)

module _ (m : Machine) (x : ℕ) (b : Sbuff) (rest : List ℕ) where
  pub dserial_char-Gives : ahead b ≡ x ∷ rest → Returns (Gives x b (x ∷ []) rest) (dserial_char m b)
  unfolding dserial_char
  dserial_char-Gives h =
      get_bytes-map b rest (x ∷ []) (mem_value m.order) x (mem_value_one m.order x) (omega arith) h

  pub dserial_short-Gives :
      x < 2 ^ 16
      → ahead b ≡ be_bytes 2 x ++ rest
      → Returns (Gives x b (be_bytes 2 x) rest) (dserial_short m b)
  unfolding dserial_short
  dserial_short-Gives fits h =
      get_bytes-map b rest (be_bytes 2 x) _ x (ntoh-be_bytes m.order 2 x fits) (omega arith) h

  pub dserial_int-Gives :
      x < 2 ^ 32
      → ahead b ≡ be_bytes 4 x ++ rest
      → Returns (Gives x b (be_bytes 4 x) rest) (dserial_int m b)
  unfolding dserial_int
  dserial_int-Gives fits h =
      get_bytes-map b rest (be_bytes 4 x) _ x (ntoh-be_bytes m.order 4 x fits) (omega arith) h

  pub dserial_long-Gives :
      x < 2 ^ 64
      → ahead b ≡ be_bytes 8 x ++ rest
      → Returns (Gives x b (be_bytes 8 x) rest) (dserial_long m b)
  unfolding dserial_long
  dserial_long-Gives fits h =
      get_bytes-map b rest (be_bytes 8 x) _ x (ntohll-be_bytes m.order x fits) (omega arith) h

pub dserial_chars-Gives :
    (m : Machine) (s : List ℕ) (b : Sbuff) (rest : List ℕ)
    → ahead b ≡ s ++ rest
    → Returns (Gives s b s rest) (dserial_chars m (length s) b)
unfolding dserial_chars
dserial_chars-Gives m [] b rest h = Gives-ok [] b rest h
dserial_chars-Gives m (c ∷ s) b rest h =
    Gives-bind {xs = c ∷ []} {ys = s} _ (dserial_char-Gives m c b (s ++ rest) h)
      λ d h'. Gives-map (λ t. c ∷ t) (dserial_chars-Gives m s d rest h')
