-- ===== src/Auth/Tests.antt =====
-- A browser that has kept a token.
use github_idea_os_app.Base.{
  ◌≡◌, refl, true, [], ◌∷◌, string_discrete, Bool-cases, none, some, string_eq, nat_eq, option_eq,
}
use github_idea_os_app.Base.Async.{resolved}
use github_idea_os_app.Types.Workspace.{User}
use github_idea_os_app.Auth.{AuthState}
use github_idea_os_app.Auth.Session.{
  initialize, initialized, signed_in, step, run, HasToken, run-initialized,
}

abbrev user : User
user = record {
  id = "u1";
  name = "A";
  email = "a@b.c";
  avatar_url = none;
  is_super_admin = none;
  created_at = "";
  updated_at = "";
}

abbrev at_start : AuthState
at_start = record {
  user = none;
  is_loading = true;
  api_token = none;
  stored_token = some "t";
  api_workspace_id = none;
  stored_workspace_id = none;
  logged_in_cookie = true;
}

run-initialized_example :
    ((step
        (initialized (resolved user))
        (run (signed_in "new" user ∷ []) (step initialize at_start))).user
      ≡ some user)
    × HasToken (
        step
          (initialized (resolved user))
          (run (signed_in "new" user ∷ []) (step initialize at_start)))
unfolding string_discrete Bool-cases
run-initialized_example = run-initialized (signed_in "new" user ∷ []) user at_start refl (refl, tt)
