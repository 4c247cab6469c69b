-- ===== src/Terminal.antt =====
-- apps/web/features/runtimes/components/runtime-ssh-terminal.tsx: the session, the socket and the
-- state of the connection. A socket is known by its number. What is only written to the terminal is
-- left out. `lower` stands for `toLowerCase`, exit codes are
-- natural numbers; `sessionRef` is taken to have caught up with the session.
pub mod Live
pub mod Sockets
mod Tests
use github_idea_os_app.Base.{
  ℕ, zero, suc, ◌+◌, ◌-◌, ◌*◌, ◌/◌, ◌%◌, ◌≤◌, ◌<◌, Ordering, compare, String, ◌≡◌, refl, sym, ap,
  subst, ◌∙◌, ◌≢◌, ◌↔◌, ◌⊎◌, inl, inr, Bool, true, false, not, ◌&&◌, ◌||◌, Option, none, some, List,
  [], ◌∷◌, ◌++◌, map, arith, if◌then◌else◌, Bool-cases, if_lem, Option-cases, Eq, ◌==◌, string_eq,
  string_discrete, nat_eq, option_eq, ltb, leb, get_or, or_else, is_some, is_nonempty, is_truthy,
  length, any, filter, find, head?, is_empty, All, length-append, length-filter-le, any-append,
  any-filter, filter-append, includes, has, IsUnique, IsUnique-concat, IsUnique-filter, has-map,
  IsUnique-map, map_option, find_key, remove_key, map_key, add_new, has-find_key, find_key-append,
  find_key-remove_key, any-eq_true, All-append, All-filter, All-of_forall, All-imp, All-filter-map,
  eq_nil_of_All, map-congr, map-map, All-zip, All-of_none, All-filter_self, any_of_All, All-mem,
  Mem, Perm, find_key-map_key, find_key-add_new, IsUnique-add_new, IsUnique-map_key,
}
use github_idea_os_app.Base.Text.{starts_with}

pub data ConnectionState : Type 0 where
  idle connecting connected disconnected closed exited : ConnectionState

pub data SessionStatus : Type 0 where
  session_connected session_closed session_exited : SessionStatus

-- The fields of an `AdminSshSession` that are used.
pub record AdminSshSession : Type 0 where
  pub id : String
  pub status : SessionStatus
  pub can_reconnect : Bool
  pub exit_code : Option ℕ
  pub exit_error : Option String
  pub exited_at : Option String

-- What an awaited call gives: a session, or the message of an error.
pub data Reply : Type 0 where
  replied : AdminSshSession → Reply
  refused : String → Reply

-- The state of the component, with the token and the session id that `localStorage` keeps.
pub record Terminal : Type 0 where
  pub session : Option AdminSshSession
  pub connection_state : ConnectionState
  pub error : String
  pub restoring : Bool
  pub socket : Option ℕ
  pub next_socket : ℕ
  pub stored_token : Option String
  pub stored_session : Option String

abbrev pub initial : Option String → Option String → Terminal
initial token stored = record {
  session = none;
  connection_state = idle;
  error = "";
  restoring = false;
  socket = none;
  next_socket = 0;
  stored_token = token;
  stored_session = stored;
}

abbrev pub disconnect_socket : Terminal → Terminal
disconnect_socket t = record t { socket = none }

-- `connectSocket`, none when it throws.
unfoldable pub connect_socket : Terminal → Option Terminal
connect_socket t =
    if not (is_truthy t.stored_token)
    then none
    else some (record t { socket = some t.next_socket; next_socket = suc t.next_socket })

-- `socketRef.current === socket`
abbrev pub is_current : ℕ → Terminal → Bool
is_current n t = t.socket == some n

unfoldable pub on_open : ℕ → Terminal → Terminal
on_open n t = if is_current n t then record t { connection_state = connected; error = "" } else t

-- `text.includes(part)`
unfoldable pub includes_text : String → String → Bool
includes_text part String.[] = is_empty_text part
  where
    is_empty_text : String → Bool
    is_empty_text String.[] = true
    is_empty_text (String.◌∷◌ c s) = false
includes_text part (String.◌∷◌ c s) = starts_with (String.◌∷◌ c s) part || includes_text part s

abbrev pub with_exit :
    SessionStatus → String → Option ℕ → String → AdminSshSession → AdminSshSession
with_exit status reason exit_code now s = record s {
  status = status;
  can_reconnect = false;
  exit_code = or_else exit_code s.exit_code;
  exit_error = some reason;
  exited_at = some (get_or s.exited_at now);
}

-- `updateClosedSession`, with the time of the client.
unfoldable pub update_closed_session :
    (String → String) → String → Option ℕ → String → Terminal → Terminal
update_closed_session lower reason exit_code now t =
    let is_closed = includes_text "closed" (lower reason) in
    record t {
      connection_state = if is_closed then closed else exited;
      error = reason;
      session =
          map_option
            (with_exit (if is_closed then session_closed else session_exited) reason exit_code now)
            t.session;
      stored_session = none;
    }

-- A message of a socket. Its handler does not look at which socket it is.
pub data SshEvent : Type 0 where
  ready : SshEvent
  output : String → SshEvent
  error_event : Option String → SshEvent
  exit : Option String → Option ℕ → SshEvent
  other : SshEvent

unfoldable pub on_message : (String → String) → String → SshEvent → Terminal → Terminal
on_message lower now ready t = t
on_message lower now (output data_text) t = t
on_message lower now (error_event none) t = t
on_message lower now (error_event (some e)) t = if is_nonempty e then record t { error = e } else t
on_message lower now (exit e exit_code) t =
    disconnect_socket (update_closed_session lower (get_or e "SSH session exited") exit_code now t)
on_message lower now other t = t

abbrev after_close : ConnectionState → Option AdminSshSession → ConnectionState
after_close closed session = closed
after_close exited session = exited
after_close _ none = idle
after_close _ (some s) = if s.can_reconnect then disconnected else idle

unfoldable pub on_close : ℕ → Terminal → Terminal
on_close n t =
    if is_current n t
    then record t { socket = none; connection_state = after_close t.connection_state t.session }
    else t

unfoldable pub on_error : ℕ → Terminal → Terminal
on_error n t =
    if is_current n t then record t { error = "SSH stream disconnected unexpectedly." } else t

-- What `connectToSession` leaves: the terminal itself when `connectSocket` throws.
abbrev pub connect_result : Terminal → Option Terminal → Terminal × Bool
connect_result kept none = (kept, true)
connect_result kept (some opened) = (opened, false)

-- `connectToSession`: the state and whether `connectSocket` has thrown.
unfoldable pub connect_to_session : AdminSshSession → Terminal → Terminal × Bool
connect_to_session next t =
    let kept = record t { session = some next; stored_session = some next.id } in
    connect_result kept (connect_socket kept)

abbrev pub missing_token : String
missing_token = "Missing login token"

-- The effect that restores a session, up to its call, and whether it makes the call.
unfoldable pub restore_start : Terminal → Terminal × Bool
restore_start t =
    if is_truthy t.stored_session
    then (record t { restoring = true }, true)
    else (record t { session = none; connection_state = idle }, false)

abbrev pub restore_failed : Terminal → Terminal
restore_failed t = record t {
  stored_session = none;
  session = none;
  connection_state = idle;
  restoring = false;
}

-- The state of a session that cannot be connected again.
unfoldable pub ended_state : SessionStatus → ConnectionState
ended_state session_closed = closed
ended_state _ = exited

unfoldable pub restore_end : Reply → Terminal → Terminal
restore_end (refused message) t = restore_failed t
restore_end (replied s) t =
    if s.can_reconnect
    then elim (connect_socket (record t { session = some s; connection_state = connecting })) [
      | none ↦ restore_failed t
      | some opened ↦ record opened { restoring = false }
    ]
    else record t {
      session = some s;
      stored_session = none;
      connection_state = ended_state s.status;
      restoring = false;
    }

-- `handleConnect` and `handleReconnect` up to their calls; `can_start` is the guard of the former.
unfoldable pub connect_start : Bool → Terminal → Terminal × Bool
connect_start can_start t =
    if not can_start
    then (t, false)
    else (record t { error = ""; connection_state = connecting }, true)

unfoldable pub reconnect_start : Bool → Terminal → Terminal × Bool
unfolding connect_start
reconnect_start can_start t =
    if is_some t.session
    then (record t { error = ""; connection_state = connecting }, true)
    else connect_start can_start t

abbrev pub connect_failed : String → Terminal → Terminal
connect_failed message t = record t { error = message; connection_state = idle }

unfoldable pub connect_end : Reply → Terminal → Terminal
connect_end (refused message) t = connect_failed message t
connect_end (replied s) t =
    let after = connect_to_session s t in
    if after.1 then connect_failed missing_token after.0 else after.0

unfoldable pub reconnect_end : Reply → Terminal → Terminal
reconnect_end (refused message) t = record (connect_failed message t) { stored_session = none }
reconnect_end (replied s) t =
    let after = connect_to_session s t in
    if after.1
    then record (connect_failed missing_token after.0) { stored_session = none }
    else after.0

-- `handleClose` up to its call, and whether it makes the call.
unfoldable pub close_start : Terminal → Terminal × Bool
close_start t =
    if is_some t.session
    then (t, true)
    else (record t { socket = none; connection_state = idle; stored_session = none }, false)

unfoldable pub close_end : Reply → Terminal → Terminal
close_end (refused message) t = record t { error = message }
close_end (replied s) t = record t {
  session = some s;
  connection_state = closed;
  error = get_or s.exit_error "";
  stored_session = none;
  socket = none;
}
