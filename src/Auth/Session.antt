-- ===== src/Auth/Session.antt =====
-- Who is shown as signed in, and with which token the calls are made.
use github_idea_os_app.Base.{
  String, ◌≡◌, refl, inl, inr, true, Option, none, some, Bool-cases, Bool, false, List, [], ◌∷◌,
  All, string_eq, nat_eq, option_eq, is_some, is_truthy,
}
use github_idea_os_app.Base.Async.{Response, resolved, rejected}
use github_idea_os_app.Types.Workspace.{User}
use github_idea_os_app.Auth.{
  AuthState, initialize_start, initialize_end, sign_in_end, logout, set_user,
}

pub data Action : Type 0 where
  initialize : Action
  initialized : Response User → Action
  signed_in : String → User → Action
  logged_out : Action
  user_set : User → Action

unfoldable pub step : Action → AuthState → AuthState
unfolding initialize_start initialize_end sign_in_end logout set_user
step initialize s = (initialize_start s).0
step (initialized response) s = initialize_end response s
step (signed_in token user) s = sign_in_end token user s
step logged_out s = logout s
step (user_set user) s = set_user user s

-- The API client sends the token that is stored.
abbrev pub HasToken : AuthState → Type 0
HasToken s = (s.api_token ≡ s.stored_token) × (is_some s.api_token ≡ true)

-- The token may go only when the user logs out or the server does not accept it.
abbrev pub keeps_token : Action → Bool
keeps_token logged_out = false
keeps_token (initialized rejected) = false
keeps_token _ = true

unfoldable pub run : List Action → AuthState → AuthState
unfolding step
run [] s = s
run (a ∷ actions) s = run actions (step a s)

token_given : (o : Option String) → is_truthy o ≡ true → is_some o ≡ true
token_given none h = cc
token_given (some t) h = refl

initialize-HasToken :
    (s : AuthState) → is_truthy s.stored_token ≡ true → HasToken (step initialize s)
unfolding step
initialize-HasToken s e = rw (step, e) (refl, token_given s.stored_token e)

step-HasToken :
    (a : Action) (s : AuthState) → keeps_token a ≡ true → HasToken s → HasToken (step a s)
unfolding step
step-HasToken initialize s k h = elim (Bool-cases (is_truthy s.stored_token)) [
  | inl e ↦ initialize-HasToken s e
  | inr e ↦ rw (step, e) h
]
step-HasToken (initialized (resolved user)) s k h = h
step-HasToken (initialized rejected) s k h = cc
step-HasToken (signed_in token user) s k h = (refl, refl)
step-HasToken logged_out s k h = cc
step-HasToken (user_set user) s k h = h

run-HasToken :
    (actions : List Action) (s : AuthState)
    → All (λ a. keeps_token a ≡ true) actions
    → HasToken s
    → HasToken (run actions s)
unfolding run
run-HasToken [] s k h = h
run-HasToken (a ∷ actions) s (k, ks) h = run-HasToken actions (step a s) ks (step-HasToken a s k h)

-- When the browser has kept a token, `initialize` has started, and then its answer with the user comes,
-- this user is shown and the API client sends the token that the browser keeps, whatever has happened
-- in between, other sign-ins included, provided that nobody has logged out and no answer has refused
-- the token.
pub run-initialized :
    (actions : List Action) (user : User) (s : AuthState)
    → is_truthy s.stored_token ≡ true
    → All (λ a. keeps_token a ≡ true) actions
    → ((step (initialized (resolved user)) (run actions (step initialize s))).user ≡ some user)
      × HasToken (step (initialized (resolved user)) (run actions (step initialize s)))
unfolding step
run-initialized actions user s e k =
    (refl, run-HasToken actions (step initialize s) k (initialize-HasToken s e))

-- Someone who logs out while `initialize` waits is shown as signed in when the answer comes, without a
-- token.
logged_out_shown :
    (user : User) (s : AuthState)
    → ((step (initialized (resolved user)) (step logged_out (step initialize s))).user ≡ some user)
      × ((step (initialized (resolved user)) (step logged_out (step initialize s))).api_token
          ≡ none)
unfolding step
logged_out_shown user s = (refl, refl)
