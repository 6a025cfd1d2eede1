-- ===== src/Wire/Serial/Scalars.antt =====
-- The scalar writers append the bytes of their argument in network order, on either host.
use s6_projet_reseau.Common.{ℕ, zero, suc, ◌%◌, ◌<◌, ◌≡◌, arith, [], ◌∷◌, be_bytes, replicate}
use s6_projet_reseau.Common.Run.{Returns}
use s6_projet_reseau.Wire.Host.{mem_bytes-htons, mem_bytes-htonl, mem_bytes-htonll}
use s6_projet_reseau.Wire.Machine.{Machine}
use s6_projet_reseau.Wire.Sbuff.{Sbuff, IsSbuff}
use s6_projet_reseau.Wire.Sbuff.Append.{Appends, Appends-bind, Appends-nil, reserve-put_bytes}
use s6_projet_reseau.Wire.Serial.{serial_char, serial_short, serial_int, serial_long, serial_zeroes}

module _ (m : Machine) (x : ℕ) (b : Sbuff) (v : IsSbuff b) where
  pub serial_char-Appends : Returns (Appends b ((x % 256) ∷ [])) (serial_char m x b)
  unfolding serial_char
  serial_char-Appends = reserve-put_bytes m.junk ((x % 256) ∷ []) b v

  pub serial_short-Appends : Returns (Appends b (be_bytes 2 x)) (serial_short m x b)
  unfolding serial_short
  serial_short-Appends =
      rw (mem_bytes-htons m.order x) (reserve-put_bytes m.junk (be_bytes 2 x) b v)

  pub serial_int-Appends : Returns (Appends b (be_bytes 4 x)) (serial_int m x b)
  unfolding serial_int
  serial_int-Appends = rw (mem_bytes-htonl m.order x) (reserve-put_bytes m.junk (be_bytes 4 x) b v)

  pub serial_long-Appends : Returns (Appends b (be_bytes 8 x)) (serial_long m x b)
  unfolding serial_long
  serial_long-Appends =
      rw (mem_bytes-htonll m.order x) (reserve-put_bytes m.junk (be_bytes 8 x) b v)

-- A byte that needs no reduction.
pub serial_byte-Appends :
    (m : Machine) (x : ℕ) (b : Sbuff)
    → x < 256
    → IsSbuff b
    → Returns (Appends b (x ∷ [])) (serial_char m x b)
serial_byte-Appends m x b h v =
    let e : x % 256 ≡ x = omega arith in rw e at (serial_char-Appends m x b v)

pub serial_zeroes-Appends :
    (m : Machine) (n : ℕ) (b : Sbuff)
    → IsSbuff b
    → Returns (Appends b (replicate n 0)) (serial_zeroes m n b)
unfolding serial_zeroes
serial_zeroes-Appends m zero b v = Appends-nil b v
serial_zeroes-Appends m (suc n) b v =
    Appends-bind (serial_char-Appends m 0 b v) λ c w. serial_zeroes-Appends m n c w
