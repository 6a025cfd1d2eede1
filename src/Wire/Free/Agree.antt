-- ===== src/Wire/Free/Agree.antt =====
-- What dserial_msg returns: the body of each TLV is of the type that the TLV states, so that the
-- casts of its users are right.
use s6_projet_reseau.Common.{
  ℕ, ◌≡◌, false, none, some, List, [], ◌∷◌, ◌++◌, ltb, ◌==◌, if◌then◌else◌,
}
use s6_projet_reseau.Common.Holds.{Holds}
use s6_projet_reseau.Common.Run
use s6_projet_reseau.Common.Run.{Run, Returns, bind}
use s6_projet_reseau.Wire.Machine.{Machine}
use s6_projet_reseau.Wire.TlvType
use s6_projet_reseau.Wire.Types.{GoAwayBody, Body, Tlv, Msg}
use s6_projet_reseau.Wire.Sbuff.{Sbuff}
use s6_projet_reseau.Wire.Free.{Object, tlv_object, free_go_away_body}

-- The objects that a body is made of: those that dserial_msg had from malloc for it, but the empty
-- object of a warning without a text.
abbrev pub body_objects : Body → List Object
body_objects Body.null = []
body_objects Body.unset = []
body_objects (Body.content e) =
    Object.text_object e.content ∷ Object.body_object (Body.content e) ∷ []
body_objects (Body.go_away e) =
    (elim e.message [ none ↦ [] | some text ↦ Object.text_object text ∷ [] ])
    ++ (Object.body_object (Body.go_away e) ∷ [])
body_objects (Body.warning e) =
    (if ltb 0 e.msg_len then Object.text_object e.message ∷ [] else [])
    ++ (Object.body_object (Body.warning e) ∷ [])
body_objects body = Object.body_object body ∷ []

abbrev pub tlvs_objects : List Tlv → List Object
tlvs_objects [] = []
tlvs_objects (t ∷ ts) = (body_objects t.body ++ (tlv_object t ∷ [])) ++ tlvs_objects ts

-- The objects of a message and of its TLVs, each once.
abbrev pub msg_objects : Msg → List Object
msg_objects msg =
    tlvs_objects msg.body ++ (Object.array_object msg.body ∷ Object.msg_object msg ∷ [])

-- A message is there if the body says so.
abbrev pub HasItsMessage : GoAwayBody → Type 0
HasItsMessage e = Returns (λ os. os ≡ body_objects (Body.go_away e)) (free_go_away_body e)

-- The body is of the type that is stated.
abbrev pub Agrees : ℕ → Body → Type 0
Agrees type Body.null =
    ((type == TlvType.hello) ≡ false)
    × ((type == TlvType.neighbour) ≡ false)
    × ((type == TlvType.content) ≡ false)
    × ((type == TlvType.ack) ≡ false)
    × ((type == TlvType.go_away) ≡ false)
    × ((type == TlvType.warning) ≡ false)
Agrees type Body.unset = ⊥
Agrees type (Body.padn e) = type ≡ TlvType.padn
Agrees type (Body.hello e) = type ≡ TlvType.hello
Agrees type (Body.neighbour e) = type ≡ TlvType.neighbour
Agrees type (Body.content e) = type ≡ TlvType.content
Agrees type (Body.ack e) = type ≡ TlvType.ack
Agrees type (Body.go_away e) = (type ≡ TlvType.go_away) × HasItsMessage e
Agrees type (Body.warning e) = type ≡ TlvType.warning

abbrev BodyAgrees : ℕ → Body × Sbuff → Type 0
BodyAgrees type r = Agrees type r.0

abbrev pub TlvAgrees : Tlv → Type 0
TlvAgrees t = Agrees t.type t.body
