-- ===== src/Gui/Show.antt =====
-- What the window shows of a message that is typed.
use s6_projet_reseau.Common.{
  ℕ, suc, ◌+◌, ◌-◌, ◌^◌, ◌%◌, ◌<◌, ◌≤◌, ◌≡◌, ◌≢◌, refl, ap, ◌∙◌, arith, true, false, List, [], ◌∷◌,
  ◌++◌, ◌==◌, leb, length, drop, All, length-append, take-append, take_all, ne→not_==,
}
use s6_projet_reseau.Common.Run.{ok, fault}
use s6_projet_reseau.Common.Text.{c_string-zero}
use s6_projet_reseau.Gui.{
  Gui, Style, nick_loop, nick_len, insert_text, print_message, is_add, exec_command, send_message,
  update_label_peers,
}

-- A byte of a name: not the zero, nor the colon that ends it.
abbrev pub IsNameByte : ℕ → Type 0
IsNameByte c = (c ≢ 0) × (c ≢ b':')

nick_loop-colon :
    (nick rest : List ℕ) (nlen len : ℕ)
    → All IsNameByte nick
    → nlen + length nick ≤ len
    → nick_loop (nick ++ (b':' ∷ rest)) nlen len ≡ ok (nlen + length nick)
unfolding nick_loop
nick_loop-colon [] rest nlen len h le =
    let fits : leb nlen len ≡ true = ground arith in rw fits (ap (λ n. ok n) (omega arith))
nick_loop-colon (c ∷ nick) rest nlen len h le =
    let fits : leb nlen len ≡ true = ground arith in
    rw (ne→not_== c 0 h.0.0, fits, ne→not_== c b':' h.0.1)
      (nick_loop-colon nick rest (nlen + 1) len h.1 (omega arith) ∙ ap (λ n. ok n) (omega arith))

drop_past : (xs ys : List ℕ) (y : ℕ) → drop (length xs + 1) (xs ++ (y ∷ ys)) ≡ ys
drop_past [] ys y = refl
drop_past (x ∷ xs) ys y =
    let e : suc (length xs) + 1 ≡ suc (length xs + 1) = omega arith in rw e (drop_past xs ys y)

module _ (clock : List ℕ) (print_long : ℕ → List ℕ) where
  -- The three texts of a message.
  abbrev pub with_message : List ℕ → List ℕ → Gui → Gui
  with_message nick body g = insert_text Style.plain (body ++ (b'\n' ∷ [])) (
      insert_text Style.bold (b'<' ∷ (nick ++ (b'>' ∷ b' ' ∷ [])))
        (insert_text Style.light clock g))

  print_message-shows :
      (nick body rest : List ℕ) (g : Gui)
      → All IsNameByte nick
      → nick ≢ []
      → All (λ c. c ≢ 0) body
      → length nick + 1 + length body + 2 < 2 ^ 64
      → print_message clock print_long
          (nick ++ (b':' ∷ (body ++ (0 ∷ rest))))
          (length nick + 1 + length body)
          g
        ≡ ok (with_message nick body g)
  unfolding print_message nick_len
  print_message-shows nick body rest g name ne clean small =
      let text : List ℕ = nick ++ (b':' ∷ (body ++ (0 ∷ rest))) in
      let len : ℕ = length nick + 1 + length body in
      let loop : nick_loop text 0 len ≡ ok (length nick) =
        nick_loop-colon nick (body ++ (0 ∷ rest)) 0 len name (omega arith)
        ∙ ap (λ n. ok n) (omega arith) in
      let shorter : (length nick == len) ≡ false = ground arith in
      let inside : leb (length nick) (length text) ≡ true =
        ground (arith, length-append nick (b':' ∷ (body ++ (0 ∷ rest)))) in
      let some_nick : (length nick == 0) ≡ false = not_empty nick ne in
      let room : length (body ++ (b'\n' ∷ [])) ≤ (len + 1 + 1 + 2 ^ 64 - length nick) % 2 ^ 64 - 1 =
        omega (arith, length-append {0} body (b'\n' ∷ [])) in
      rw
        (
          loop,
          shorter,
          inside,
          some_nick,
          take-append nick (b':' ∷ (body ++ (0 ∷ rest))),
          drop_past nick (body ++ (0 ∷ rest)) b':',
          c_string-zero body rest clean,
          take_all ((len + 1 + 1 + 2 ^ 64 - length nick) % 2 ^ 64 - 1) (body ++ (b'\n' ∷ [])) room,
        )
        refl
    where
      not_empty : (xs : List ℕ) → xs ≢ [] → (length xs == 0) ≡ false
      not_empty [] ne = absurd (ne refl)
      not_empty (x ∷ xs) ne = ground arith

  -- send_message of a text that is not an "/add " command, under a name that is not empty and has no
  -- colon: the window shows the time, the name in angle brackets and the text with a new line, behind
  -- what it showed; the entry is empty again and the label of the peers says 0.
  pub send_message-shows :
      (name : List ℕ) (g : Gui)
      → All IsNameByte name
      → name ≢ []
      → All (λ c. c ≢ 0) g.entry_message
      → is_add g.entry_message ≡ false
      → length name + 1 + length g.entry_message + 2 < 2 ^ 64
      → send_message clock print_long name g
        ≡ ok (
            update_label_peers clock print_long 0
              (record (with_message name g.entry_message g) { entry_message = [] }))
  unfolding send_message exec_command
  send_message-shows name g good ne clean other small =
      rw (other, print_message-shows name g.entry_message [] g good ne clean small) refl

  -- send_message of a text that begins with "/add " reads a variable that is not assigned.
  pub send_message-fault :
      (name : List ℕ) (g : Gui)
      → is_add g.entry_message ≡ true
      → send_message clock print_long name g ≡ fault
  unfolding send_message exec_command
  send_message-fault name g add = rw add refl
