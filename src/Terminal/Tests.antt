-- ===== src/Terminal/Tests.antt =====
-- A session that opens, and one that ends with an exit message.
use github_idea_os_app.Base.{
  ℕ, String, ◌≡◌, refl, Option, none, some, List, [], ◌∷◌, Bool, true, false, arith, ◌<◌,
}
use github_idea_os_app.Terminal.{
  AdminSshSession, session_connected, Reply, replied, exit, error_event, Terminal, initial,
  connect_end, on_open, on_close, on_error, on_message, connected,
}
use github_idea_os_app.Terminal.Live.{
  Step, opened, connect, connect_answered, run, IsSound, run-IsSound,
}
use github_idea_os_app.Terminal.Sockets.{
  SocketEvent, told, closed_by, HasEnded, hear_all, joined, on_message_exit, connect_end_connects,
}

abbrev a_session : AdminSshSession
a_session = record {
  id = "s1";
  status = session_connected;
  can_reconnect = true;
  exit_code = none;
  exit_error = none;
  exited_at = none;
}

abbrev steps : List Step
steps = connect true ∷ connect_answered (replied a_session) ∷ opened 0 ∷ []

abbrev open_terminal : Terminal
open_terminal = run (λ s. s) steps (initial (some "token") none)

is_connected : open_terminal.connection_state ≡ connected
unfolding run github_idea_os_app.Terminal.Live.step on_open github_idea_os_app.Base.option_discrete
    connect_end github_idea_os_app.Terminal.connect_to_session
    github_idea_os_app.Terminal.connect_socket github_idea_os_app.Terminal.connect_start
    github_idea_os_app.Base.string_discrete native.Mathlib.Decide.ℕ_discrete
is_connected = refl

run-IsSound_example : IsSound open_terminal
run-IsSound_example = run-IsSound (λ s. s) steps (some "token") none

abbrev after_exit : List SocketEvent
after_exit = told "now" (error_event (some "late")) ∷ closed_by 0 ∷ []

on_message_exit_example :
    ((on_message (λ s. s) "now" (exit (some "closed") none) open_terminal).error ≡ "closed")
    × HasEnded (
        hear_all
          (λ s. s)
          after_exit
          (on_message (λ s. s) "now" (exit (some "closed") none) open_terminal))
on_message_exit_example =
    on_message_exit (λ s. s) "now" (some "closed") none after_exit open_terminal

abbrev again : Terminal
again = record (initial (some "token") none) { next_socket = 1 }

connect_end_connects_example :
    (on_open 0 (connect_end (replied a_session) again) ≡ connect_end (replied a_session) again)
    × (on_close 0 (connect_end (replied a_session) again) ≡ connect_end (replied a_session) again)
    × (on_error 0 (connect_end (replied a_session) again) ≡ connect_end (replied a_session) again)
    × (on_message (λ s. s) "now" (error_event (some "late")) (connect_end (replied a_session) again)
        ≡ record (connect_end (replied a_session) again) {
          error =
              (on_message
                (λ s. s)
                "now"
                (error_event (some "late"))
                (connect_end (replied a_session) again)).error;
        })
    × (on_open 1 (connect_end (replied a_session) again)
        ≡ record (joined a_session again) { connection_state = connected; error = "" })
unfolding github_idea_os_app.Base.string_discrete
connect_end_connects_example =
    connect_end_connects (λ s. s) "now" a_session again 0 (error_event (some "late")) refl
      (omega arith) refl
