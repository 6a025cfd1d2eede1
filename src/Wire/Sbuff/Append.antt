-- ===== src/Wire/Sbuff/Append.antt =====
-- put_bytes behind sbuff_reserve_space appends to what has been written.
use s6_projet_reseau.Common.{
  ℕ, ◌+◌, ◌≤◌, ◌≡◌, refl, sym, ap, ◌∙◌, List, [], ◌++◌, append_assoc, append-nil, arith, length,
  length-append, length-tabulate, length-take, length-drop, take, drop, take-append, le→leb,
}
use s6_projet_reseau.Common.Run
use s6_projet_reseau.Common.Run.{Run, ok, ◌>>=◌, Returns, returns}
use s6_projet_reseau.Wire.Sbuff.{
  Sbuff, IsSbuff, written, sbuff_reserve_space, put_bytes, new_sbuff, sbuff_init_size,
}
use s6_projet_reseau.Wire.Sbuff.Reserve.{sbuff_reserve_space-Reserved}

-- `b'` is `b` with the bytes `bs` written behind it.
pub record Appends (b : Sbuff) (bs : List ℕ) (b' : Sbuff) : Type 0 where
  pub valid : IsSbuff b'
  pub text : written b' ≡ written b ++ bs

pub length-written : (b : Sbuff) → IsSbuff b → length (written b) ≡ b.next
unfolding written
length-written b v = length-take b.next b.block (omega arith)

take-append-append {ℓ} :
    {A : Type ℓ} (n : ℕ) (xs ys zs : List A)
    → length xs + length ys ≡ n
    → take n (xs ++ (ys ++ zs)) ≡ xs ++ ys
take-append-append n xs ys zs h =
    let e : n ≡ length (xs ++ ys) = omega (arith, length-append xs ys) in
    rw (e, ← append_assoc xs ys zs) (take-append (xs ++ ys) zs)

put_bytes-Appends :
    (bs : List ℕ) (b : Sbuff)
    → IsSbuff b
    → b.next + length bs ≤ b.size
    → Returns (Appends b bs) (put_bytes bs b)
unfolding put_bytes written
put_bytes-Appends bs b v h =
    let front = length-take b.next b.block (omega arith) in
    rw (le→leb (b.next + length bs) (length b.block) (omega arith)) (
      returns (record {
        valid = record {
          sized = omega (
            arith,
            length-append (take b.next b.block) (bs ++ drop (b.next + length bs) b.block),
            length-append bs (drop (b.next + length bs) b.block),
            front,
            length-drop (b.next + length bs) b.block,
          );
          nonempty = omega arith;
          fits = omega arith;
          real = omega arith;
        };
        text =
            take-append-append (b.next + length bs) (take b.next b.block) bs
              (drop (b.next + length bs) b.block) (omega (arith, front));
      }))

-- A write of any length behind a reservation of that length.
pub reserve-put_bytes :
    (junk : ℕ → ℕ) (bs : List ℕ) (b : Sbuff)
    → IsSbuff b
    → Returns (Appends b bs) (sbuff_reserve_space junk b (length bs) >>= put_bytes bs)
reserve-put_bytes junk bs b v = Run.bind (sbuff_reserve_space-Reserved junk b (length bs) v) λ b' r.
    Run.mono (put_bytes-Appends bs b' r.valid r.room)
      λ c a. record { valid = a.valid; text = a.text ∙ ap (λ t. t ++ bs) r.kept }

pub Appends-trans :
    (b c d : Sbuff) (xs ys : List ℕ) → Appends b xs c → Appends c ys d → Appends b (xs ++ ys) d
Appends-trans b c d xs ys p q = record {
  valid = q.valid;
  text = q.text ∙ ap (λ t. t ++ ys) p.text ∙ append_assoc (written b) xs ys;
}

-- One write after another.
pub Appends-bind :
    {b : Sbuff} {xs ys : List ℕ} {r : Run Sbuff} {k : Sbuff → Run Sbuff}
    → Returns (Appends b xs) r
    → ((c : Sbuff) → IsSbuff c → Returns (Appends c ys) (k c))
    → Returns (Appends b (xs ++ ys)) (r >>= k)
Appends-bind {b} {xs} {ys} p next =
    Run.bind p λ c a. Run.mono (next c a.valid) λ d a'. Appends-trans b c d xs ys a a'

pub Appends-nil : (b : Sbuff) → IsSbuff b → Returns (Appends b []) (ok b)
Appends-nil b v = returns (record { valid = v; text = sym (append-nil (written b)) })

pub new_sbuff-IsSbuff : (junk : ℕ → ℕ) → IsSbuff (new_sbuff junk)
unfolding new_sbuff
new_sbuff-IsSbuff junk = record {
  sized = length-tabulate sbuff_init_size 0 junk;
  nonempty = omega arith;
  fits = omega arith;
  real = refl;
}

pub written-new_sbuff : (junk : ℕ → ℕ) → written (new_sbuff junk) ≡ []
unfolding new_sbuff written
written-new_sbuff junk = refl
