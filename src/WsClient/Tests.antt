-- ===== src/WsClient/Tests.antt =====
-- A client with one handler and one callback.
use github_idea_os_app.Base.{◌≡◌, refl, false, some, [], ◌∷◌, string_eq, nat_eq, option_eq}
use github_idea_os_app.WsClient.{WsClient, on_open, on_close, connect}

abbrev client : WsClient
client = record {
  ws = false;
  token = some "t";
  workspace_id = some "w1";
  handlers = ("inbox:new", 1 ∷ []) ∷ [];
  any_handlers = [];
  on_reconnect_callbacks = 2 ∷ [];
  has_connected_before = false;
  reconnect_timer = false;
}

reconnect_calls_back : (on_open (connect (on_close (on_open (connect client)).0))).1 ≡ 2 ∷ []
unfolding on_open on_close connect
reconnect_calls_back = refl
