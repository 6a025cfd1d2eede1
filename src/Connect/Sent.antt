-- ===== src/Connect/Sent.antt =====
-- The messages of one TLV that the program sends, and what a receiver of them does.
use s6_projet_reseau.Common.{
  ℕ, ◌+◌, ◌%◌, ◌^◌, ◌<◌, ◌≡◌, refl, ◌∙◌, arith, Bool, true, false, none, List, [], ◌∷◌, ◌++◌, leb,
  length, le→leb, if◌then◌else◌,
}
use s6_projet_reseau.Common.Run
use s6_projet_reseau.Common.Run.{Run, ok, fault, stuck, blocked, guard, Returns, returns, ◌>>=◌}
use s6_projet_reseau.Wire.Machine.{Machine}
use s6_projet_reseau.Wire.Types.{Sockaddr, Tlv, Msg, null_ptr}
use s6_projet_reseau.Wire.Sbuff.{Sbuff, IsSbuff, new_sbuff}
use s6_projet_reseau.Wire.Sbuff.Append.{new_sbuff-IsSbuff}
use s6_projet_reseau.Wire.Make.{new_tlv_hello, new_tlv_ack, new_tlv_go_away, new_msg, sum_lengths}
use s6_projet_reseau.Wire.Make.Plain.{
  new_tlv_hello-IsPlain, new_tlv_ack-IsPlain, new_tlv_go_away-IsPlain,
}
use s6_projet_reseau.Wire.Serial.{serial_msg}
use s6_projet_reseau.Wire.Serial.Format.{IsPlain, IsPlainMsg}
use s6_projet_reseau.Wire.Serial.Encode.{serial_msg-Appends}
use s6_projet_reseau.Wire.Free.{free_pointer, free_body, free_tlv, free_tlvs, free_msg}
use s6_projet_reseau.Wire.RoundTrip.{datagram}
use s6_projet_reseau.Connect.{
  Net, Handlers, udp_send, send_hello, send_ack_msg, send_ack, send_go_away, process_datagram,
}
use s6_projet_reseau.Connect.Dispatch.{ended, Acts, handled, process_datagram-handled}

-- The message of one TLV.
pub single_msg : Tlv → Msg
single_msg t = record {
  magic = 93;
  version = 2;
  length = (0 + (2 + t.length)) % 2 ^ 16;
  tlv_nb = 1;
  body = t ∷ [];
}

single_msg-ok : (t : Tlv) → new_msg (t ∷ []) 1 ≡ ok (single_msg t)
unfolding new_msg sum_lengths single_msg
single_msg-ok t = refl

single_msg-IsPlainMsg : (t : Tlv) → IsPlain t → IsPlainMsg (single_msg t)
unfolding single_msg
single_msg-IsPlainMsg t p = record {
  magic = omega arith;
  version = omega arith;
  length_fits = omega arith;
  count = refl;
  plain = (p, tt);
}

-- Exactly one datagram was sent, to `pair`, and a receiver of the datagram does `action`.
pub record Delivered {S : Type 0} (handlers : Handlers S) (pair : Sockaddr) (net : Net)
    (action : S → Run S) (net' : Net) : Type 0 where
  pub text : List ℕ
  pub sent : net'.sent ≡ (pair, text) ∷ net.sent
  pub acts : Acts handlers text action

module _ (accepts : Sockaddr → List ℕ → Bool) (pair : Sockaddr) (net : Net)
    (is_open : net.is_open ≡ true) (accepted : (text : List ℕ) → accepts pair text ≡ true) where
  pub udp_send-sent :
      (b : Sbuff)
      → IsSbuff b
      → udp_send accepts pair b net ≡ ok (true, record net { sent = (pair, datagram b) ∷ net.sent })
  unfolding udp_send
  udp_send-sent b v =
      let inside : leb b.real_size (length b.block) ≡ true =
        le→leb b.real_size (length b.block) (omega (arith, v.sized, v.fits, v.real)) in
      rw (is_open, inside, accepted (datagram b)) refl

-- The buffer that the message of one TLV is written to.
pub record IsWritten {S : Type 0} (handlers : Handlers S) (m : Machine) (t : Tlv) (b : Sbuff)
    : Type 0 where
  pub made : new_msg (t ∷ []) 1 ≡ ok (single_msg t)
  pub written : serial_msg m (single_msg t) (new_sbuff m.junk) ≡ ok b
  pub valid : IsSbuff b
  pub acts :
      (receiver : Machine) (from_malloc : Bool) (stale : List ℕ) (s : S)
      → process_datagram handlers receiver from_malloc (datagram b ++ stale) (length (datagram b)) s
        ≡ handled handlers (ended from_malloc) (t ∷ []) s

pub single_msg-IsWritten :
    {S : Type 0} (handlers : Handlers S) (m : Machine) (t : Tlv)
    → IsPlain t
    → (b : Sbuff) × IsWritten handlers m t b
unfolding single_msg
single_msg-IsWritten handlers m t p =
    let plain = single_msg-IsPlainMsg t p in
    let (b, e, app) =
      Run.result
        (serial_msg-Appends m (single_msg t) (new_sbuff m.junk) plain (new_sbuff-IsSbuff m.junk)) in
    (
      b,
      record {
        made = single_msg-ok t;
        written = e;
        valid = app.valid;
        acts = λ receiver from_malloc stale s. Run.Returns-ok e (
            process_datagram-handled handlers m receiver from_malloc (single_msg t) stale s plain
              refl refl (omega arith));
      },
    )

-- The datagram of send_go_away, which is the same for each peer.
pub send_go_away-text :
    {S : Type 0} (handlers : Handlers S) (m : Machine) (accepts : Sockaddr → List ℕ → Bool)
    → (text : List ℕ) × ((pair : Sockaddr) (net : Net)
        → net.is_open ≡ true
        → ((t : List ℕ) → accepts pair t ≡ true)
        → send_go_away m accepts pair net ≡ ok (record net { sent = (pair, text) ∷ net.sent }))
      × Acts handlers text
          (handlers.process_go_away (record { code = 2; has_message = false; message = none }))
unfolding send_go_away new_tlv_go_away
send_go_away-text handlers m accepts =
    let t = new_tlv_go_away 2 null_ptr 0 in
    let (buff, single) =
      single_msg-IsWritten handlers m t (new_tlv_go_away-IsPlain 2 null_ptr (omega arith)) in
    (
      datagram buff,
      λ pair net is_open accepted.
          rw
            (
              single.made,
              single.written,
              udp_send-sent accepts pair net is_open accepted buff single.valid,
            )
            refl,
      single.acts,
    )

module _ {S : Type 0} (handlers : Handlers S) (m : Machine) (accepts : Sockaddr → List ℕ → Bool)
    (pair : Sockaddr) (net : Net) (is_open : net.is_open ≡ true)
    (accepted : (text : List ℕ) → accepts pair text ≡ true) where
  -- The buffer that the message of one TLV is written to, and the socket after it is sent.
  send_one :
      (t : Tlv) (action : S → Run S)
      → IsPlain t
      → ((from_malloc : Bool) (s : S)
          → handled handlers (ended from_malloc) (t ∷ []) s ≡ (action s >>= ended from_malloc))
      → (buff : Sbuff) × (net' : Net) × (serial_msg m (single_msg t) (new_sbuff m.junk) ≡ ok buff)
        × (udp_send accepts pair buff net ≡ ok (true, net'))
        × Delivered handlers pair net action net'
  unfolding single_msg
  send_one t action p same =
      let (buff, single) = single_msg-IsWritten handlers m t p in
      (
        buff,
        record net { sent = (pair, datagram buff) ∷ net.sent },
        single.written,
        udp_send-sent accepts pair net is_open accepted buff single.valid,
        record {
          text = datagram buff;
          sent = refl;
          acts = λ receiver from_malloc stale s.
              single.acts receiver from_malloc stale s ∙ same from_malloc s;
        },
      )

  -- Over an open socket that accepts what is sent to `pair`, send_ack up to its call of udp_send sends
  -- one datagram there, and a receiver of any byte order calls process_ack with the sender and the
  -- nonce of the data.
  pub send_ack_msg-process_ack :
      (sender_id nonce : ℕ)
      → sender_id < 2 ^ 64
      → nonce < 2 ^ 32
      → Returns
          (λ r.
            Delivered handlers pair net
              (handlers.process_ack (record { sender_id = sender_id; nonce = nonce }))
              r.1)
          (send_ack_msg m accepts pair sender_id nonce net)
  unfolding send_ack_msg new_tlv_ack
  send_ack_msg-process_ack sender_id nonce i n =
      let t = new_tlv_ack sender_id nonce in
      let (buff, net', e, u, d) =
        send_one t _ (new_tlv_ack-IsPlain sender_id nonce i n) (λ from_malloc s. refl) in
      rw (single_msg-ok t, e, u) (returns d)

  -- Over an open socket that accepts what is sent to `pair`, send_ack faults once it has sent the
  -- datagram: it frees the array of TLVs, which is a local variable.
  pub send_ack-fault :
      (sender_id nonce : ℕ)
      → sender_id < 2 ^ 64
      → nonce < 2 ^ 32
      → send_ack m accepts pair sender_id nonce net ≡ fault
  unfolding send_ack send_ack_msg new_tlv_ack free_msg free_tlvs free_tlv free_body free_pointer
      single_msg
  send_ack-fault sender_id nonce i n =
      let t = new_tlv_ack sender_id nonce in
      let (buff, net', e, u, d) =
        send_one t (handlers.process_ack (record { sender_id = sender_id; nonce = nonce }))
          (new_tlv_ack-IsPlain sender_id nonce i n) (λ from_malloc s. refl) in
      rw (single_msg-ok t, e, u) refl

  -- Over an open socket that accepts what is sent to `pair`, send_hello sends one datagram there, and
  -- a receiver of any byte order calls process_hello with the same identifiers, where a short hello
  -- has the destination 0.
  pub send_hello-process_hello :
      (is_long : Bool) (src_id dst_id : ℕ)
      → src_id < 2 ^ 64
      → dst_id < 2 ^ 64
      → Returns
          (Delivered handlers pair net (
            handlers.process_hello (record {
              is_long = is_long;
              source_id = src_id;
              dest_id = if is_long then dst_id else 0;
            })))
          (send_hello m accepts pair is_long src_id dst_id net)
  unfolding send_hello new_tlv_hello
  send_hello-process_hello is_long src_id dst_id i n =
      let t = new_tlv_hello is_long src_id dst_id in
      let (buff, net', e, u, d) =
        send_one t _ (new_tlv_hello-IsPlain is_long src_id dst_id i n) (λ from_malloc s. refl) in
      rw (single_msg-ok t, e, u) (returns d)

  -- Over an open socket that accepts what is sent to `pair`, send_go_away sends one datagram there,
  -- and a receiver of any byte order calls process_go_away with the code 2 and no message.
  pub send_go_away-process_go_away :
      Returns
        (Delivered handlers pair net
          (handlers.process_go_away (record { code = 2; has_message = false; message = none })))
        (send_go_away m accepts pair net)
  unfolding send_go_away new_tlv_go_away
  send_go_away-process_go_away =
      let t = new_tlv_go_away 2 null_ptr 0 in
      let (buff, net', e, u, d) =
        send_one t _ (new_tlv_go_away-IsPlain 2 null_ptr (omega arith)) (λ from_malloc s. refl) in
      rw (single_msg-ok t, e, u) (returns d)
