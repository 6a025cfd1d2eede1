-- ===== src/Tests/Threads.antt =====
-- The theorems on the threads, the window and the terminal at concrete inputs.
use s6_projet_reseau.Common.{ℕ, ◌≡◌, ◌⊎◌, refl, arith, List, [], ◌∷◌, ◌++◌, replicate}
use s6_projet_reseau.Common.Run.{ok}
use s6_projet_reseau.Threads.{System, Event, passes, serve, start, Step, Reach, here}
use s6_projet_reseau.Threads.Order.{no_deadlock}
use s6_projet_reseau.Threads.Finish.{IsEnd, can_finish}
use s6_projet_reseau.Gui.{Gui, send_message, update_label_peers}
use s6_projet_reseau.Gui.Show.{with_message, send_message-shows}
use s6_projet_reseau.Terminal.{listen_input, listen_input-line}

abbrev events : List Event
events = Event.hello ∷ Event.go_away ∷ []

no_deadlock_example :
    ((t : System) × Step (start (passes 1) (serve events)) t)
    ⊎ ((start (passes 1) (serve events)).worker.rest ≡ [])
      × ((start (passes 1) (serve events)).server.rest ≡ [])
no_deadlock_example = no_deadlock 1 events (start (passes 1) (serve events)) here

abbrev window : Gui
window = record {
  text_view_messages = [];
  entry_message = b'h' ∷ b'i' ∷ [];
  title = [];
  label_infos2 = [];
  label_peers = [];
}

abbrev clock : List ℕ
clock = b'[' ∷ b']' ∷ []

send_message-shows_example :
    send_message clock (λ n. n ∷ []) (b'A' ∷ []) window
    ≡ ok (
        update_label_peers clock
          (λ n. n ∷ [])
          0
          (record (with_message clock (λ n. n ∷ []) (b'A' ∷ []) (b'h' ∷ b'i' ∷ []) window) {
            entry_message = [];
          }))
send_message-shows_example =
    send_message-shows clock (λ n. n ∷ []) (b'A' ∷ []) window
      (((λ e. omega (arith, e)), (λ e. omega (arith, e))), tt) (λ e. cc)
      ((λ e. omega (arith, e)), ((λ e. omega (arith, e)), tt)) refl (omega arith)

-- After two empty lines the third one ends the program.
listen_input-line_example :
    listen_input (b'A' ∷ []) (replicate 2 [] ++ ((b'/' ∷ b'q' ∷ []) ∷ [])) ≡ ok []
listen_input-line_example = listen_input-line (b'A' ∷ []) 2 (b'/' ∷ b'q' ∷ []) [] (λ e. cc)

can_finish_example : (t : System) × Reach (start (passes 1) (serve events)) t × IsEnd t
can_finish_example = can_finish 1 events (start (passes 1) (serve events)) here
