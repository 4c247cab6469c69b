-- ===== src/Auth.antt =====
-- apps/web/features/auth/store.ts, with the token and the workspace id of the API client, those kept
-- in `localStorage`, and the cookie that says that somebody is signed in. An asynchronous action is
-- cut at its `await`.
pub mod Session
mod Tests
use github_idea_os_app.Base.{
  ℕ, zero, suc, ◌+◌, ◌-◌, ◌*◌, ◌/◌, ◌%◌, ◌≤◌, ◌<◌, Ordering, compare, String, ◌≡◌, refl, sym, ap,
  subst, ◌∙◌, ◌≢◌, ◌↔◌, ◌⊎◌, inl, inr, Bool, true, false, not, ◌&&◌, ◌||◌, Option, none, some, List,
  [], ◌∷◌, ◌++◌, map, arith, if◌then◌else◌, Bool-cases, Option-cases, Eq, ◌==◌, string_eq,
  string_discrete, nat_eq, option_eq, ltb, leb, get_or, or_else, is_some, is_nonempty, is_truthy,
  length, any, filter, find, head?, is_empty, All, length-append, length-filter-le, any-append,
  any-filter, filter-append, includes, has, IsUnique, IsUnique-concat, IsUnique-filter, has-map,
  IsUnique-map, map_option, find_key, remove_key, map_key, add_new, has-find_key, find_key-append,
  find_key-remove_key, any-eq_true, All-append, All-filter, All-of_forall, All-imp, All-filter-map,
  eq_nil_of_All, map-congr, map-map, All-zip, All-of_none, All-filter_self, any_of_All, All-mem,
  Mem, Perm, find_key-map_key, find_key-add_new, IsUnique-add_new, IsUnique-map_key,
}
use github_idea_os_app.Base.Async.{Response, resolved, rejected}
use github_idea_os_app.Types.Workspace.{User}

pub record AuthState : Type 0 where
  pub user : Option User
  pub is_loading : Bool
  pub api_token : Option String
  pub stored_token : Option String
  pub api_workspace_id : Option String
  pub stored_workspace_id : Option String
  pub logged_in_cookie : Bool

-- `initialize` up to its call, and whether it makes the call.
unfoldable pub initialize_start : AuthState → AuthState × Bool
initialize_start s =
    if not (is_truthy s.stored_token)
    then (record s { is_loading = false }, false)
    else (record s { api_token = s.stored_token }, true)

unfoldable pub initialize_end : Response User → AuthState → AuthState
initialize_end (resolved user) s = record s { user = some user; is_loading = false }
initialize_end rejected s = record s {
  api_token = none;
  api_workspace_id = none;
  stored_token = none;
  stored_workspace_id = none;
  user = none;
  is_loading = false;
}

-- `verifyCode` and `loginWithPassword` once the server has sent a token and the user.
unfoldable pub sign_in_end : String → User → AuthState → AuthState
sign_in_end token user s = record s {
  stored_token = some token;
  api_token = some token;
  logged_in_cookie = true;
  user = some user;
}

unfoldable pub logout : AuthState → AuthState
logout s = record s {
  stored_token = none;
  stored_workspace_id = none;
  api_token = none;
  api_workspace_id = none;
  logged_in_cookie = false;
  user = none;
}

unfoldable pub set_user : User → AuthState → AuthState
set_user user s = record s { user = some user }
