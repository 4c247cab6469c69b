-- ===== src/Terminal/Sockets.antt =====
-- connectSocket, connectToSession and the events of sockets in runtime-ssh-terminal.tsx. The handlers
-- of opening, closing and errors test that their socket is the current one, that of messages does not.
use github_idea_os_app.Base.{
  ℕ, zero, suc, ◌≤◌, ◌<◌, String, ◌≡◌, refl, sym, ap, ◌∙◌, Bool, true, false, not, ◌&&◌, ◌||◌,
  Option, none, some, List, [], ◌∷◌, arith, if◌then◌else◌, inl, inr, Bool-cases, if_lem,
  Option-cases, ◌==◌, is_some, ◌⊎◌, option_eq, nat_eq, is_truthy, is_nonempty, get_or,
}
use github_idea_os_app.Terminal.{
  connected, closed, exited, AdminSshSession, replied, SshEvent, ready, output, error_event, exit,
  other, includes_text, Terminal, connect_socket, on_open, on_message, on_close, on_error,
  update_closed_session, connect_end, connect_to_session, connect_result, connect_failed,
  missing_token,
}

-- The terminal with a socket of its own.
abbrev pub with_socket : Terminal → Terminal
with_socket t = record t { socket = some t.next_socket; next_socket = suc t.next_socket }

connect_socket_opens :
    (t : Terminal) → is_truthy t.stored_token ≡ true → connect_socket t ≡ some (with_socket t)
unfolding connect_socket
connect_socket_opens t h = simp h refl

pub connect_socket_cases :
    (t : Terminal) → (connect_socket t ≡ none) ⊎ (connect_socket t ≡ some (with_socket t))
unfolding connect_socket
connect_socket_cases t = elim (Bool-cases (is_truthy t.stored_token)) [
  | inl e ↦ inr (connect_socket_opens t e)
  | inr e ↦ inl (simp e refl)
]

-- The terminal that keeps a session.
abbrev pub kept : AdminSshSession → Terminal → Terminal
kept s t = record t { session = some s; stored_session = some s.id }

-- What `connectToSession` leaves when it succeeds.
abbrev pub joined : AdminSshSession → Terminal → Terminal
joined s t = with_socket (kept s t)

pub connect_to_session_cases :
    (s : AdminSshSession) (t : Terminal)
    → (connect_to_session s t ≡ (kept s t, true)) ⊎ (connect_to_session s t ≡ (joined s t, false))
unfolding connect_to_session
connect_to_session_cases s t = elim (connect_socket_cases (kept s t)) [
  | inl e ↦ inl (ap (connect_result (kept s t)) e)
  | inr e ↦ inr (ap (connect_result (kept s t)) e)
]

-- What a socket may report, with its number where the handler tests it.
pub data SocketEvent : Type 0 where
  opened : ℕ → SocketEvent
  told : String → SshEvent → SocketEvent
  closed_by : ℕ → SocketEvent
  failed : ℕ → SocketEvent

abbrev pub hear : (String → String) → SocketEvent → Terminal → Terminal
hear lower (opened n) t = on_open n t
hear lower (told now m) t = on_message lower now m t
hear lower (closed_by n) t = on_close n t
hear lower (failed n) t = on_error n t

abbrev pub hear_all : (String → String) → List SocketEvent → Terminal → Terminal
hear_all lower [] t = t
hear_all lower (e ∷ es) t = hear_all lower es (hear lower e t)

-- The terminal says that the session is closed or has exited, has no socket and keeps no session.
pub HasEnded : Terminal → Type 0
HasEnded t =
    ((t.connection_state ≡ closed) ⊎ (t.connection_state ≡ exited))
    × (t.socket ≡ none)
    × (t.stored_session ≡ none)

exit-HasEnded :
    (lower : String → String) (now : String) (reason : Option String) (code : Option ℕ)
    (t : Terminal)
    → HasEnded (on_message lower now (exit reason code) t)
unfolding HasEnded on_message update_closed_session
exit-HasEnded lower now reason code t = (
  if_lem (λ c. (c ≡ closed) ⊎ (c ≡ exited))
      (includes_text "closed" (lower (get_or reason "SSH session exited"))) closed exited (inl refl)
      (inr refl),
  refl,
  refl,
)

-- A terminal without a socket has no current one.
none_current : (n : ℕ) (t : Terminal) → t.socket ≡ none → (t.socket == some n) ≡ false
unfolding github_idea_os_app.Base.option_discrete
none_current n t h = rw h refl

hear-HasEnded :
    (lower : String → String) (e : SocketEvent) (t : Terminal)
    → HasEnded t
    → HasEnded (hear lower e t)
unfolding on_open on_close on_error on_message HasEnded
hear-HasEnded lower (opened n) t h = rw (none_current n t h.1) h
hear-HasEnded lower (closed_by n) t h = rw (none_current n t h.1) h
hear-HasEnded lower (failed n) t h = rw (none_current n t h.1) h
hear-HasEnded lower (told now ready) t h = h
hear-HasEnded lower (told now (output s)) t h = h
hear-HasEnded lower (told now (error_event none)) t h = h
hear-HasEnded lower (told now (error_event (some s))) t h =
    if_lem HasEnded (is_nonempty s) (record t { error = s }) t h h
hear-HasEnded lower (told now (exit reason code)) t h = exit-HasEnded lower now reason code t
hear-HasEnded lower (told now other) t h = h

-- An `exit` message ends the session: the terminal shows its reason, and whatever any sockets report
-- afterwards, in any order, later messages included, the terminal says that the session is closed or
-- has exited, has no socket, and does not restore the session after a reload.
pub on_message_exit :
    (lower : String → String) (now : String) (reason : Option String) (code : Option ℕ)
    (es : List SocketEvent) (t : Terminal)
    → ((on_message lower now (exit reason code) t).error ≡ get_or reason "SSH session exited")
      × HasEnded (hear_all lower es (on_message lower now (exit reason code) t))
unfolding on_message update_closed_session
on_message_exit lower now reason code es t = (
  refl,
  go es (on_message lower now (exit reason code) t) (exit-HasEnded lower now reason code t),
)
  where
    go : (es : List SocketEvent) (u : Terminal) → HasEnded u → HasEnded (hear_all lower es u)
    go [] u h = h
    go (e ∷ es) u h = go es (hear lower e u) (hear-HasEnded lower e u h)

abbrev pub is_exit : SshEvent → Bool
is_exit (exit reason code) = true
is_exit _ = false

message_shown :
    (lower : String → String) (now : String) (m : SshEvent) (t : Terminal)
    → is_exit m ≡ false
    → on_message lower now m t ≡ record t { error = (on_message lower now m t).error }
unfolding on_message
message_shown lower now ready t h = refl
message_shown lower now (output s) t h = refl
message_shown lower now (error_event none) t h = refl
message_shown lower now (error_event (some s)) t h = elim (Bool-cases (is_nonempty s)) [
  | inl e ↦ rw e refl
  | inr e ↦ rw e refl
]
message_shown lower now (exit reason code) t h = cc
message_shown lower now other t h = refl

connect_end_lem :
    (s : AdminSshSession) (t : Terminal)
    → is_truthy t.stored_token ≡ true
    → connect_end (replied s) t ≡ joined s t
unfolding connect_end connect_to_session
connect_end_lem s t h =
    ap
      (λ r.
        let after = connect_result (kept s t) r in
        if after.1 then connect_failed missing_token after.0 else after.0)
      (connect_socket_opens (kept s t) h)

other_socket : (a b : ℕ) → b < a → (some a == some b) ≡ false
unfolding github_idea_os_app.Base.option_discrete
other_socket a b h = ground arith

same_socket : (a : ℕ) → (some a == some a) ≡ true
unfolding github_idea_os_app.Base.option_discrete
same_socket a = ground arith

-- With a token, the answer of `handleConnect` opens one new socket. The openings, closings and errors
-- of every earlier socket then change nothing, and a message of any socket other than `exit` changes
-- at most the error that is shown. When the new socket opens the terminal is connected to the session
-- without an error, and the session is the one that a reload restores.
pub connect_end_connects :
    (lower : String → String) (now : String) (s : AdminSshSession) (t : Terminal) (n : ℕ)
    (m : SshEvent)
    → is_truthy t.stored_token ≡ true
    → n < t.next_socket
    → is_exit m ≡ false
    → (on_open n (connect_end (replied s) t) ≡ connect_end (replied s) t)
      × (on_close n (connect_end (replied s) t) ≡ connect_end (replied s) t)
      × (on_error n (connect_end (replied s) t) ≡ connect_end (replied s) t)
      × (on_message lower now m (connect_end (replied s) t) ≡ record (connect_end (replied s) t) {
        error = (on_message lower now m (connect_end (replied s) t)).error;
      })
      × (on_open t.next_socket (connect_end (replied s) t)
          ≡ record (joined s t) { connection_state = connected; error = "" })
unfolding on_close on_error on_open
connect_end_connects lower now s t n m h lt no_exit = rw (connect_end_lem s t h) (
  rw (other_socket t.next_socket n lt) refl,
  rw (other_socket t.next_socket n lt) refl,
  rw (other_socket t.next_socket n lt) refl,
  message_shown lower now m (joined s t) no_exit,
  rw (same_socket t.next_socket) refl,
)
