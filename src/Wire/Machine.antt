-- ===== src/Wire/Machine.antt =====
-- What the program meets on the machine it runs on.
use s6_projet_reseau.Common.{ℕ}
use s6_projet_reseau.Wire.Host.{ByteOrder}
use s6_projet_reseau.Wire.Types.{NeighbourBody}

pub record Machine : Type 0 where
  pub order : ByteOrder
  -- What malloc and realloc leave at each offset of fresh bytes.
  pub junk : ℕ → ℕ
  -- Where the array `ip` of a body lies.
  pub ip_address : NeighbourBody → ℕ
  -- Where malloc puts the string that is read at a position of the buffer.
  pub str_address : ℕ → ℕ
