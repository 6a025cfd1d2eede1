-- ===== src/Printing.antt =====
-- What is printed of messages and neighbours: src/msg.c, and the printing of src/neighbour_map.c. A
-- function returns the text that it prints.
pub mod Messages
pub mod Map
use s6_projet_reseau.Common.{
  ℕ, zero, suc, ◌%◌, ◌^◌, Bool, Option, none, some, List, [], ◌∷◌, ◌++◌, ◌==◌, ltb, if◌then◌else◌,
}
use s6_projet_reseau.Common.Text.{codes, c_string, c_prefix}
use s6_projet_reseau.Common.Run.{Run, ok, fault, from_option, ◌>>=◌}
use s6_projet_reseau.Wire.Host.{ByteOrder, hton}
use s6_projet_reseau.Wire.TlvType
use s6_projet_reseau.Wire.Types.{
  PadnBody, HelloBody, NeighbourBody, DataBody, AckBody, GoAwayBody, WarningBody, Body, Tlv, Msg,
}
use s6_projet_reseau.Wire.Serial.{
  as_padn, as_hello, as_neighbour, as_content, as_ack, as_go_away, as_warning,
}
use s6_projet_reseau.Neighbours.{Key, NeighbourEntry, MapLib}

-- What printf prints for `%d`, `%ld` and `%u`, from the bits of the integer.
pub record Printf : Type 0 where
  pub d : ℕ → List ℕ
  pub ld : ℕ → List ℕ
  pub u : ℕ → List ℕ

-- A precision is converted to an int, and one that is negative counts as none.
abbrev pub with_precision : ℕ → List ℕ → Run (List ℕ)
with_precision n text =
    if ltb (n % 2 ^ 32) (2 ^ 31) then c_prefix (n % 2 ^ 32) text else c_string text

module _ (printf : Printf) where
  unfoldable pub print_padn : PadnBody → List ℕ
  print_padn b = codes "TLV type: PadN\nN: " ++ (printf.d b.zeroes ++ codes "\n")

  unfoldable pub print_hello : HelloBody → List ℕ
  print_hello b =
      codes "Hello type: "
      ++ (printf.d (if b.is_long then 1 else 0)
          ++ (codes "\nSource ID: "
              ++ (printf.ld b.source_id
                  ++ (codes "\n"
                      ++ (if b.is_long
                          then codes "Destination ID: " ++ (printf.ld b.dest_id ++ codes "\n")
                          else [])))))

  -- The address is printed byte by byte.
  unfoldable pub print_neighbour_body : NeighbourBody → Run (List ℕ)
  print_neighbour_body b = do
    ip ← c_prefix 16 b.ip
    ok (codes "IP: " ++ (ip ++ (codes "\nPort: " ++ (printf.u b.port ++ codes "\n"))))

  unfoldable pub print_data : DataBody → Run (List ℕ)
  print_data b = do
    text ← with_precision b.data_len b.content.bytes
    ok (
        codes "Sender ID: "
        ++ (printf.ld b.sender_id
            ++ (codes "\nNonce: "
                ++ (printf.d b.nonce
                    ++ (codes "\nType: "
                        ++ (printf.d b.type
                            ++ (codes "\nData:\n***\n" ++ (text ++ codes "\n***\n"))))))))

  unfoldable pub print_ack : AckBody → List ℕ
  print_ack b =
      codes "Sender ID: "
      ++ (printf.ld b.sender_id ++ (codes "\nNonce: " ++ (printf.d b.nonce ++ codes "\n")))

  unfoldable pub print_go_away : GoAwayBody → Run (List ℕ)
  print_go_away b = do
    message ← from_option b.message
    text ← c_string message.bytes
    ok (
        codes "Code: "
        ++ (printf.d b.code ++ (codes "\nMessage:\n***\n" ++ (text ++ codes "\n***\n"))))

  unfoldable pub print_warning : WarningBody → Run (List ℕ)
  print_warning b = do
    text ← c_string b.message.bytes
    ok (codes "Message:\n***\n" ++ (text ++ codes "\n***\n"))

  abbrev pub not_recognized : List ℕ
  not_recognized = codes "TLV type not recognized...\n"

  -- The switch of print_tlv. The case of a warning has no break.
  unfoldable pub print_body : ℕ → Body → Run (List ℕ)
  print_body type body =
      if type == TlvType.pad1
      then ok []
      else if type == TlvType.padn
      then (do b ← as_padn body; ok (print_padn b))
      else if type == TlvType.hello
      then (do b ← as_hello body; ok (print_hello b))
      else if type == TlvType.neighbour
      then (do b ← as_neighbour body; print_neighbour_body b)
      else if type == TlvType.content
      then (do b ← as_content body; print_data b)
      else if type == TlvType.ack
      then (do b ← as_ack body; ok (print_ack b))
      else if type == TlvType.go_away
      then (do b ← as_go_away body; print_go_away b)
      else if type == TlvType.warning
      then (do b ← as_warning body; text ← print_warning b; ok (text ++ not_recognized))
      else ok not_recognized

  unfoldable pub print_tlv : Tlv → Run (List ℕ)
  print_tlv t = do
    text ← print_body t.type t.body
    ok (
        codes "---\nType: "
        ++ (printf.d t.type
            ++ (codes "\nLength: "
                ++ (printf.d t.length ++ (codes "\n" ++ (text ++ codes "---\n"))))))

  -- The loop of print_msg over the `n` TLVs that are left.
  unfoldable pub print_tlvs : ℕ → List Tlv → Run (List ℕ)
  print_tlvs zero ts = ok []
  print_tlvs (suc n) [] = fault
  print_tlvs (suc n) (t ∷ ts) = do text ← print_tlv t; rest ← print_tlvs n ts; ok (text ++ rest)

  unfoldable pub print_msg : Msg → Run (List ℕ)
  print_msg m = do
    text ← print_tlvs m.tlv_nb m.body
    ok (
        codes "===\nMagic: "
        ++ (printf.d m.magic
            ++ (codes "\nVersion: "
                ++ (printf.d m.version
                    ++ (codes "\nLength: "
                        ++ (printf.d m.length
                            ++ (codes "\nBody:\n" ++ (text ++ codes "===\n"))))))))

  -- An address is printed up to its sixteenth character. The text that inet_ntop writes ends with a
  -- zero.
  unfoldable pub print_neighbour_entry : ByteOrder → NeighbourEntry → Run (List ℕ)
  print_neighbour_entry order e = do
    ip ← c_prefix 16 (e.addr.ip ++ (0 ∷ []))
    ok (
        codes "----\nIP: "
        ++ (ip
            ++ (codes "\nPort: "
                ++ (printf.d (hton order 2 e.addr.sin6_port)
                    ++ (codes "\nLast HELLO short: "
                        ++ (printf.ld e.last_short_hello
                            ++ (codes "\nLast HELLO long: "
                                ++ (printf.ld e.last_long_hello ++ codes "\n"))))))))

  module _ {M : Type 0} (lib : MapLib (Option NeighbourEntry) M) (order : ByteOrder) (m : M) where
    unfoldable pub print_keys : List Key → Run (List ℕ)
    print_keys [] = ok []
    print_keys (key ∷ keys) = do
      e ← from_option (lib.map_get m key)
      text ← elim e [ some e ↦ print_neighbour_entry order e | none ↦ ok (codes "No entry...\n") ]
      rest ← print_keys keys
      ok (text ++ rest)

    unfoldable pub print_neighbour_map : Run (List ℕ)
    print_neighbour_map = do text ← print_keys (lib.map_keys m); ok (codes "map:\n" ++ text)
