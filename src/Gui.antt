-- ===== src/Gui.antt =====
-- The window: src/gui.c. What GTK shows is a state: the texts that are inserted in the buffer, and those
-- of the entry, the title and the labels. A C string in memory is the bytes of its object.
pub mod Show
use s6_projet_reseau.Common.{
  ℕ, zero, suc, ◌+◌, ◌-◌, ◌%◌, ◌^◌, Bool, true, false, List, [], ◌∷◌, ◌++◌, ◌==◌, ◌&&◌, ◌||◌, leb,
  length, take, drop, if◌then◌else◌,
}
use s6_projet_reseau.Common.Text.{c_string}
use s6_projet_reseau.Common.Run.{Run, ok, fault, guard, ◌>>=◌}

-- The tags of the texts: a light, a bold and an orange one, or none.
pub data Style : Type 0 where
  light bold orange plain : Style

pub record Gui : Type 0 where
  -- The last text stands in front.
  pub text_view_messages : List (Style × List ℕ)
  pub entry_message : List ℕ
  pub title : List ℕ
  pub label_infos2 : List ℕ
  pub label_peers : List ℕ

abbrev pub hide_empty_messages : Bool
hide_empty_messages = false

-- The loop of nick_len.
unfoldable pub nick_loop : List ℕ → ℕ → ℕ → Run ℕ
nick_loop [] nlen data_len = fault
nick_loop (c ∷ cs) nlen data_len =
    let rest = nick_loop cs (nlen + 1) data_len in
    if (c == 0) || (if leb nlen data_len then c == b':' else true) then ok nlen else rest

unfoldable pub nick_len : List ℕ → ℕ → Run ℕ
nick_len text data_len = do
  nlen ← nick_loop text 0 data_len
  ok (if nlen == data_len then 0 else nlen)

abbrev pub insert_text : Style → List ℕ → Gui → Gui
insert_text style text g = record g { text_view_messages = (style, text) ∷ g.text_view_messages }

-- The message begins with "/add ".
abbrev pub is_add : List ℕ → Bool
is_add (a ∷ b ∷ c ∷ d ∷ e ∷ rest) =
    (a == b'/') && ((b == b'a') && ((c == b'd') && ((d == b'd') && (e == b' '))))
is_add _ = false

-- The command reads the length of the host before it is assigned.
unfoldable pub exec_command : List ℕ → Run Bool
exec_command message = if is_add message then fault else ok false

-- `clock` is what strftime writes for the time, and `print_long` what snprintf prints for `%ld`.
module _ (clock : List ℕ) (print_long : ℕ → List ℕ) where
  unfoldable pub update_title : ℕ → Gui → Gui
  update_title nsym g = record g {
    title = take 255 (
        b'['
        ∷ (print_long nsym
            ++ (b']' ∷ b' ' ∷ b'm' ∷ b'i' ∷ b'a' ∷ b'o' ∷ b'u' ∷ b'c' ∷ b'h' ∷ b'a' ∷ b't' ∷ [])));
  }

  abbrev pub peers_text : ℕ → List ℕ
  peers_text nsym =
      take 63 (b'P' ∷ b'a' ∷ b'i' ∷ b'r' ∷ b's' ∷ b' ' ∷ b':' ∷ b' ' ∷ print_long nsym)

  unfoldable pub update_label_infos2 : ℕ → Gui → Gui
  update_label_infos2 nsym g = record g { label_infos2 = peers_text nsym }

  unfoldable pub update_label_peers : ℕ → Gui → Gui
  update_label_peers nsym g = record g { label_peers = peers_text nsym }

  -- `message` is the string, without the zero. The text has room for all of it.
  unfoldable pub print_info : List ℕ → Gui → Gui
  print_info message g =
      let dlen = 6 + 1 + length message + 1 + 1 in
      let info =
        take (dlen - 1)
          (b'<' ∷ b'I' ∷ b'N' ∷ b'F' ∷ b'O' ∷ b'>' ∷ b' ' ∷ (message ++ (b'\n' ∷ []))) in
      insert_text Style.orange info (insert_text Style.light clock g)

  -- `text` is the object from the first byte of the data on, and `len` the length that is given.
  unfoldable pub print_message : List ℕ → ℕ → Gui → Run Gui
  print_message text len g = if hide_empty_messages && (len == 0) then ok g else (do
    nlen ← nick_len text len
    _ ← guard (leb nlen (length text))
    let nick = b'<' ∷ (take nlen text ++ (b'>' ∷ b' ' ∷ []))
    let dlen = (len + 1 + 1 + 2 ^ 64 - nlen) % 2 ^ 64
    rest ← c_string (drop (nlen + (if nlen == 0 then 0 else 1)) text)
    ok (
        insert_text Style.plain (take (dlen - 1) (rest ++ (b'\n' ∷ [])))
          (insert_text Style.bold nick (insert_text Style.light clock g))))

  -- `client_name` is what get_client_name returns, without the zero.
  unfoldable pub send_message : List ℕ → Gui → Run Gui
  send_message client_name g = do
    done ← exec_command g.entry_message
    let text = client_name ++ (b':' ∷ (g.entry_message ++ (0 ∷ [])))
    g ←
        if done
        then ok g
        else print_message text (length client_name + 1 + length g.entry_message) g
    ok (update_label_peers 0 (record g { entry_message = [] }))

  unfoldable pub on_entry_message_activate : List ℕ → Gui → Run Gui
  on_entry_message_activate = send_message

  unfoldable pub on_button_send_clicked : List ℕ → Gui → Run Gui
  on_button_send_clicked = send_message
