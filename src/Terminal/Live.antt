-- ===== src/Terminal/Live.antt =====
-- The events, calls and clicks of runtime-ssh-terminal.tsx in any order, and what they leave.
use github_idea_os_app.Base.{
  ℕ, zero, suc, ◌≤◌, ◌<◌, String, ◌≡◌, refl, sym, ap, ◌∙◌, Bool, true, false, not, ◌&&◌, ◌||◌,
  Option, none, some, List, [], ◌∷◌, arith, if◌then◌else◌, inl, inr, Bool-cases, if_lem,
  Option-cases, ◌==◌, is_some, ◌⊎◌, option_eq, nat_eq, is_truthy, is_nonempty, get_or,
}
use github_idea_os_app.Terminal.{
  ConnectionState, idle, connecting, connected, disconnected, closed, exited, AdminSshSession,
  Reply, replied, refused, SshEvent, ready, output, error_event, exit, other, Terminal, initial,
  connect_socket, is_current, on_open, on_message, after_close, on_close, on_error,
  update_closed_session, restore_start, restore_end, connect_start, connect_end, reconnect_start,
  reconnect_end, close_start, close_end, includes_text, session_connected, session_closed,
  session_exited, restore_failed, ended_state, SessionStatus,
}
use github_idea_os_app.Terminal.Sockets.{connect_socket_cases, connect_to_session_cases}

-- What may happen to a terminal: an event of the socket of a number, or a click or an answer.
pub data Step : Type 0 where
  opened : ℕ → Step
  message : String → SshEvent → Step
  socket_closed : ℕ → Step
  failed : ℕ → Step
  restore : Step
  restored : Reply → Step
  connect : Bool → Step
  connect_answered : Reply → Step
  reconnect : Bool → Step
  reconnect_answered : Reply → Step
  close : Step
  close_answered : Reply → Step

-- A terminal that says it is connected has a socket.
unfoldable IsLive : ConnectionState → Option ℕ → Type 0
IsLive connected socket = is_some socket ≡ true
IsLive _ socket = Unit

-- The socket is one that has been made.
unfoldable IsMade : Option ℕ → ℕ → Type 0
IsMade none next = Unit
IsMade (some n) next = n < next

-- The terminal says that it is connected only while it has a socket, which is one that it has made.
pub IsSound : Terminal → Type 0
IsSound t = IsLive t.connection_state t.socket × IsMade t.socket t.next_socket

after_close-IsLive :
    (c : ConnectionState) (s : Option AdminSshSession) (o : Option ℕ) → IsLive (after_close c s) o
unfolding IsLive
after_close-IsLive closed s o = tt
after_close-IsLive exited s o = tt
after_close-IsLive idle none o = tt
after_close-IsLive idle (some s) o =
    if_lem (λ c. IsLive c o) s.can_reconnect disconnected idle tt tt
after_close-IsLive connecting none o = tt
after_close-IsLive connecting (some s) o =
    if_lem (λ c. IsLive c o) s.can_reconnect disconnected idle tt tt
after_close-IsLive connected none o = tt
after_close-IsLive connected (some s) o =
    if_lem (λ c. IsLive c o) s.can_reconnect disconnected idle tt tt
after_close-IsLive disconnected none o = tt
after_close-IsLive disconnected (some s) o =
    if_lem (λ c. IsLive c o) s.can_reconnect disconnected idle tt tt

next_made : (n : ℕ) → n < suc n
next_made n = omega arith

current_some : (o : Option ℕ) (n : ℕ) → (o == some n) ≡ true → is_some o ≡ true
unfolding github_idea_os_app.Base.option_discrete
current_some none n h = h
current_some (some k) n h = refl

some-IsLive : (c : ConnectionState) (n : ℕ) → IsLive c (some n)
unfolding IsLive
some-IsLive connected n = refl
some-IsLive _ n = tt

ended-IsLive : (status : SessionStatus) (o : Option ℕ) → IsLive (ended_state status) o
unfolding IsLive ended_state
ended-IsLive session_closed o = tt
ended-IsLive session_connected o = tt
ended-IsLive session_exited o = tt

module _ (lower : String → String) where
  unfoldable pub step : Step → Terminal → Terminal
  step (opened n) t = on_open n t
  step (message now m) t = on_message lower now m t
  step (socket_closed n) t = on_close n t
  step (failed n) t = on_error n t
  step restore t = (restore_start t).0
  step (restored r) t = restore_end r t
  step (connect can_start) t = (connect_start can_start t).0
  step (connect_answered r) t = connect_end r t
  step (reconnect can_start) t = (reconnect_start can_start t).0
  step (reconnect_answered r) t = reconnect_end r t
  step close t = (close_start t).0
  step (close_answered r) t = close_end r t

  unfoldable pub run : List Step → Terminal → Terminal
  run [] t = t
  run (e ∷ es) t = run es (step e t)

  on_open-IsSound : (n : ℕ) (t : Terminal) → IsSound t → IsSound (on_open n t)
  unfolding IsSound IsLive on_open
  on_open-IsSound n t h = elim (Bool-cases (is_current n t)) [
    | inl e ↦ rw e (current_some t.socket n e, h.1)
    | inr e ↦ rw e h
  ]

  on_message-IsSound :
      (now : String) (m : SshEvent) (t : Terminal) → IsSound t → IsSound (on_message lower now m t)
  unfolding IsSound IsLive IsMade on_message update_closed_session
  on_message-IsSound now ready t h = h
  on_message-IsSound now (output s) t h = h
  on_message-IsSound now (error_event none) t h = h
  on_message-IsSound now (error_event (some s)) t h = if_lem IsSound (is_nonempty s) _ t h h
  on_message-IsSound now (exit none code) t h = (
    if_lem (λ c. IsLive c none) (includes_text "closed" (lower "SSH session exited")) closed exited
        tt tt,
    tt,
  )
  on_message-IsSound now (exit (some s) code) t h =
      (if_lem (λ c. IsLive c none) (includes_text "closed" (lower s)) closed exited tt tt, tt)
  on_message-IsSound now other t h = h

  on_close-IsSound : (n : ℕ) (t : Terminal) → IsSound t → IsSound (on_close n t)
  unfolding IsSound IsMade on_close
  on_close-IsSound n t h =
      if_lem IsSound (is_current n t) _ t (after_close-IsLive t.connection_state t.session none, tt)
        h

  on_error-IsSound : (n : ℕ) (t : Terminal) → IsSound t → IsSound (on_error n t)
  unfolding IsSound on_error
  on_error-IsSound n t h = if_lem IsSound (is_current n t) _ t h h

  close_start-IsSound : (t : Terminal) → IsSound t → IsSound (close_start t).0
  unfolding IsSound IsLive IsMade close_start
  close_start-IsSound t h =
      if_lem (λ (r : Terminal × Bool). IsSound r.0) (is_some t.session) _ _ h (tt, tt)

  restore_start-IsSound : (t : Terminal) → IsSound t → IsSound (restore_start t).0
  unfolding IsSound IsLive restore_start
  restore_start-IsSound t h =
      if_lem (λ (r : Terminal × Bool). IsSound r.0) (is_truthy t.stored_session)
        (record t { restoring = true }, true)
        (record t { session = none; connection_state = idle }, false) h (tt, h.1)

  connect_start-IsSound : (b : Bool) (t : Terminal) → IsSound t → IsSound (connect_start b t).0
  unfolding IsSound IsLive connect_start
  connect_start-IsSound b t h =
      if_lem (λ (r : Terminal × Bool). IsSound r.0) (not b) (t, false)
        (record t { error = ""; connection_state = connecting }, true) h (tt, h.1)

  reconnect_start-IsSound : (b : Bool) (t : Terminal) → IsSound t → IsSound (reconnect_start b t).0
  unfolding IsSound IsLive reconnect_start
  reconnect_start-IsSound b t h =
      if_lem (λ (r : Terminal × Bool). IsSound r.0) (is_some t.session)
        (record t { error = ""; connection_state = connecting }, true) (connect_start b t) (tt, h.1)
        (connect_start-IsSound b t h)

  restore_end-IsSound : (r : Reply) (t : Terminal) → IsSound t → IsSound (restore_end r t)
  unfolding IsSound IsLive IsMade restore_end
  restore_end-IsSound (refused m) t h = (tt, h.1)
  restore_end-IsSound (replied s) t h =
      if_lem IsSound s.can_reconnect _ _ joined-IsSound (ended-IsLive s.status t.socket, h.1)
    where
      joining : Terminal
      joining = record t { session = some s; connection_state = connecting }

      joined-IsSound : IsSound (elim (connect_socket joining) [
        | none ↦ restore_failed t
        | some u ↦ record u { restoring = false }
      ])
      joined-IsSound = elim (connect_socket_cases joining) [
        | inl e ↦ rw e (tt, h.1)
        | inr e ↦ rw e (tt, next_made t.next_socket)
      ]

  connect_end-IsSound : (r : Reply) (t : Terminal) → IsSound t → IsSound (connect_end r t)
  unfolding IsSound IsLive IsMade connect_end
  connect_end-IsSound (refused m) t h = (tt, h.1)
  connect_end-IsSound (replied s) t h = elim (connect_to_session_cases s t) [
    | inl e ↦ rw e (tt, h.1)
    | inr e ↦ rw e (some-IsLive t.connection_state t.next_socket, next_made t.next_socket)
  ]

  reconnect_end-IsSound : (r : Reply) (t : Terminal) → IsSound t → IsSound (reconnect_end r t)
  unfolding IsSound IsLive IsMade reconnect_end
  reconnect_end-IsSound (refused m) t h = (tt, h.1)
  reconnect_end-IsSound (replied s) t h = elim (connect_to_session_cases s t) [
    | inl e ↦ rw e (tt, h.1)
    | inr e ↦ rw e (some-IsLive t.connection_state t.next_socket, next_made t.next_socket)
  ]

  close_end-IsSound : (r : Reply) (t : Terminal) → IsSound t → IsSound (close_end r t)
  unfolding IsSound IsLive IsMade close_end
  close_end-IsSound (refused m) t h = h
  close_end-IsSound (replied s) t h = (tt, tt)

  step-IsSound : (e : Step) (t : Terminal) → IsSound t → IsSound (step e t)
  unfolding step
  step-IsSound (opened n) t h = on_open-IsSound n t h
  step-IsSound (message now m) t h = on_message-IsSound now m t h
  step-IsSound (socket_closed n) t h = on_close-IsSound n t h
  step-IsSound (failed n) t h = on_error-IsSound n t h
  step-IsSound restore t h = restore_start-IsSound t h
  step-IsSound (restored r) t h = restore_end-IsSound r t h
  step-IsSound (connect b) t h = connect_start-IsSound b t h
  step-IsSound (connect_answered r) t h = connect_end-IsSound r t h
  step-IsSound (reconnect b) t h = reconnect_start-IsSound b t h
  step-IsSound (reconnect_answered r) t h = reconnect_end-IsSound r t h
  step-IsSound close t h = close_start-IsSound t h
  step-IsSound (close_answered r) t h = close_end-IsSound r t h

  -- Whatever has happened to a terminal since it was mounted, the clean-up of its effect apart, it says that it is connected only
  -- while it has a socket, and that socket is one that it has made.
  pub run-IsSound :
      (es : List Step) (token stored : Option String) → IsSound (run es (initial token stored))
  unfolding IsSound IsLive IsMade run
  run-IsSound es token stored = go es (initial token stored) (tt, tt)
    where
      go : (es : List Step) (t : Terminal) → IsSound t → IsSound (run es t)
      go [] t h = h
      go (e ∷ es) t h = go es (step e t) (step-IsSound e t h)
