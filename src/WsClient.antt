-- ===== src/WsClient.antt =====
-- apps/web/shared/api/ws-client.ts. The socket is the browser's: only whether there is one, and
-- whether it still reports to the client, is kept. A handler is known by a number, as a `Set` knows
-- it by its identity; what a message calls is the list of the handlers in the order of the calls.
pub mod Laws
mod Tests
use github_idea_os_app.Base.{
  ℕ, zero, suc, ◌+◌, ◌-◌, ◌*◌, ◌/◌, ◌%◌, ◌≤◌, ◌<◌, Ordering, compare, String, ◌≡◌, refl, sym, ap,
  subst, ◌∙◌, ◌≢◌, ◌↔◌, ◌⊎◌, inl, inr, Bool, true, false, not, ◌&&◌, ◌||◌, Option, none, some, List,
  [], ◌∷◌, ◌++◌, map, arith, if◌then◌else◌, Bool-cases, Option-cases, Eq, ◌==◌, string_eq,
  string_discrete, nat_eq, option_eq, ltb, leb, get_or, or_else, is_some, is_nonempty, is_truthy,
  length, any, filter, find, head?, is_empty, All, length-append, length-filter-le, any-append,
  any-filter, filter-append, includes, has, IsUnique, IsUnique-concat, IsUnique-filter, has-map,
  IsUnique-map, map_option, find_key, remove_key, map_key, add_new, has-find_key, find_key-append,
  find_key-remove_key, any-eq_true, All-append, All-filter, All-of_forall, All-imp, All-filter-map,
  eq_nil_of_All, map-congr, map-map, All-zip, All-of_none, All-filter_self, any_of_All, All-mem,
  Mem, Perm, find_key-map_key, find_key-add_new, IsUnique-add_new, IsUnique-map_key,
}
use github_idea_os_app.Base.Dict.{Dict, get, set}

-- A `Set`: adding what is there changes nothing.
unfoldable pub set_add : ℕ → List ℕ → List ℕ
set_add h hs = if includes hs h then hs else hs ++ h ∷ []

unfoldable pub set_delete : ℕ → List ℕ → List ℕ
set_delete h hs = filter (λ g. not (g == h)) hs

pub record WsClient : Type 0 where
  pub ws : Bool
  pub token : Option String
  pub workspace_id : Option String
  pub handlers : Dict String (List ℕ)
  pub any_handlers : List ℕ
  pub on_reconnect_callbacks : List ℕ
  pub has_connected_before : Bool
  pub reconnect_timer : Bool

pub initial : WsClient
initial = record {
  ws = false;
  token = none;
  workspace_id = none;
  handlers = [];
  any_handlers = [];
  on_reconnect_callbacks = [];
  has_connected_before = false;
  reconnect_timer = false;
}

unfoldable pub set_auth : String → String → WsClient → WsClient
set_auth token workspace_id c = record c { token = some token; workspace_id = some workspace_id }

-- The parameters that `connect` puts into the address.
unfoldable pub url_params : WsClient → List (String × String)
url_params c =
    (if is_truthy c.token then ("token", get_or c.token "") ∷ [] else [])
    ++ (if is_truthy c.workspace_id then ("workspace_id", get_or c.workspace_id "") ∷ [] else [])

unfoldable pub connect : WsClient → WsClient
connect c = record c { ws = true }

-- `onopen`: the callbacks that are called, in order.
unfoldable pub on_open : WsClient → WsClient × List ℕ
on_open c = (
  record c { has_connected_before = true },
  (if c.has_connected_before then c.on_reconnect_callbacks else []),
)

-- `onmessage`: the handlers of the type, then those of every message.
unfoldable pub on_message : String → WsClient → List ℕ
on_message type c = get_or (get type c.handlers) [] ++ c.any_handlers

unfoldable pub on_close : WsClient → WsClient
on_close c = record c { reconnect_timer = true }

-- The timer of `onclose` after three seconds.
unfoldable pub on_timer : WsClient → WsClient
unfolding connect
on_timer c = connect c

unfoldable pub disconnect : WsClient → WsClient
disconnect c = record c {
  reconnect_timer = false;
  ws = false;
  has_connected_before = false;
  handlers = [];
  any_handlers = [];
  on_reconnect_callbacks = [];
}

unfoldable pub on : String → ℕ → WsClient → WsClient
unfolding set_add
on event handler c = record c {
  handlers = set event (set_add handler (get_or (get event c.handlers) [])) c.handlers;
}

-- What `on` returns: `this.handlers.get(event)?.delete(handler)`.
unfoldable pub off : String → ℕ → WsClient → WsClient
off event handler c = elim (get event c.handlers) [
  | none ↦ c
  | some hs ↦ record c { handlers = set event (set_delete handler hs) c.handlers }
]

unfoldable pub on_any : ℕ → WsClient → WsClient
unfolding set_add
on_any handler c = record c { any_handlers = set_add handler c.any_handlers }

unfoldable pub off_any : ℕ → WsClient → WsClient
off_any handler c = record c { any_handlers = set_delete handler c.any_handlers }

unfoldable pub on_reconnect : ℕ → WsClient → WsClient
unfolding set_add
on_reconnect callback c = record c {
  on_reconnect_callbacks = set_add callback c.on_reconnect_callbacks;
}

unfoldable pub off_reconnect : ℕ → WsClient → WsClient
off_reconnect callback c = record c {
  on_reconnect_callbacks = set_delete callback c.on_reconnect_callbacks;
}

-- `send`: the text that goes to the socket, when it is open.
unfoldable pub send : Bool → String → WsClient → Option String
send is_open text c = if c.ws && is_open then some text else none
