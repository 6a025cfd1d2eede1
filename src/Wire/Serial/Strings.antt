-- ===== src/Wire/Serial/Strings.antt =====
-- serial_str copies from the parameter that holds the pointer, so what it writes is the address.
use s6_projet_reseau.Common.{
  ℕ, ◌%◌, ◌<◌, ◌≤◌, ◌≡◌, arith, [], ◌∷◌, ◌++◌, length, take, length-take, length-le_bytes,
  length-be_bytes, be_bytes, le→leb, lt→not_leb,
}
use s6_projet_reseau.Common.Run.{fault, Returns, Returns-fault, fault-bind}
use s6_projet_reseau.Wire.Host.{ByteOrder, little, big, mem_bytes}
use s6_projet_reseau.Wire.Machine.{Machine}
use s6_projet_reseau.Wire.Types.{CharPtr, NeighbourBody, DataBody}
use s6_projet_reseau.Wire.Sbuff.{Sbuff, IsSbuff}
use s6_projet_reseau.Wire.Sbuff.Reserve.{sbuff_reserve_space-Reserved}
use s6_projet_reseau.Wire.Sbuff.Append.{Appends, Appends-bind, reserve-put_bytes}
use s6_projet_reseau.Wire.Serial.{serial_str, serial_neighbour_body, serial_data_body}
use s6_projet_reseau.Wire.Serial.Scalars.{
  serial_char-Appends, serial_int-Appends, serial_long-Appends,
}

pub length-mem_bytes : (o : ByteOrder) (n x : ℕ) → length (mem_bytes o n x) ≡ n
length-mem_bytes little n x = length-le_bytes n x
length-mem_bytes big n x = length-be_bytes n x

module _ (m : Machine) (s : CharPtr) (n : ℕ) (b : Sbuff) where
  -- Up to eight bytes of the address are written, and no byte of the string.
  serial_str-Appends :
      n ≤ 8
      → IsSbuff b
      → Returns (Appends b (take n (mem_bytes m.order 8 s.address))) (serial_str m s n b)
  unfolding serial_str
  serial_str-Appends h v =
      let bs = take n (mem_bytes m.order 8 s.address) in
      let e : length bs ≡ n =
        length-take n _ (omega (arith, length-mem_bytes m.order 8 s.address)) in
      rw (le→leb n 8 h) (rw e at (reserve-put_bytes m.junk bs b v))

  -- More than eight bytes are read from outside the parameter.
  serial_str-fault : 8 < n → IsSbuff b → serial_str m s n b ≡ fault
  unfolding serial_str
  serial_str-fault h v =
      Returns-fault _ (sbuff_reserve_space-Reserved m.junk b n v) λ c _. rw (lt→not_leb n 8 h)

-- The sixteen bytes of the address in a Neighbour TLV cannot be written: every run of
-- serial_neighbour_body on a valid buffer reads outside an object.
pub serial_neighbour_body-fault :
    (m : Machine) (e : NeighbourBody) (b : Sbuff) → IsSbuff b → serial_neighbour_body m e b ≡ fault
unfolding serial_neighbour_body
serial_neighbour_body-fault m e b v =
    fault-bind _
      (serial_str-fault m (record { address = m.ip_address e; bytes = e.ip }) 16 b (omega arith) v)

-- A Data TLV of up to eight bytes is written with the bytes of a pointer in place of its data: the
-- sender, the nonce and the type are right, and what follows is the address of the data.
pub serial_data_body-Appends :
    (m : Machine) (e : DataBody) (b : Sbuff)
    → e.data_len ≤ 8
    → IsSbuff b
    → Returns
        (Appends b (
          be_bytes 8 e.sender_id
          ++ (be_bytes 4 e.nonce
              ++ (((e.type % 256) ∷ [])
                  ++ take e.data_len (mem_bytes m.order 8 e.content.address)))))
        (serial_data_body m e b)
unfolding serial_data_body
serial_data_body-Appends m e b h v = Appends-bind (serial_long-Appends m e.sender_id b v) λ c w.
    Appends-bind (serial_int-Appends m e.nonce c w) λ d x.
      Appends-bind (serial_char-Appends m e.type d x)
        λ f y. serial_str-Appends m e.content e.data_len f h y

-- A Data TLV of more than eight bytes cannot be written: every run of serial_data_body on a valid
-- buffer reads outside an object.
pub serial_data_body-fault :
    (m : Machine) (e : DataBody) (b : Sbuff)
    → 8 < e.data_len
    → IsSbuff b
    → serial_data_body m e b ≡ fault
unfolding serial_data_body
serial_data_body-fault m e b h v = Returns-fault _ (serial_long-Appends m e.sender_id b v) λ c p.
    Returns-fault _ (serial_int-Appends m e.nonce c p.valid) λ d q.
      Returns-fault _ (serial_char-Appends m e.type d q.valid)
        λ f r. serial_str-fault m e.content e.data_len f h r.valid
