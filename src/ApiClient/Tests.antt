-- ===== src/ApiClient/Tests.antt =====
-- A client with a token and a workspace, refused by the server.
use github_idea_os_app.Base.{
  is_some, ◌||◌, String, ◌≡◌, refl, true, false, not, ◌&&◌, none, some, [], ◌∷◌, Bool-cases, ◌==◌,
  string_eq, string_discrete, nat_eq, option_eq, IsUnique,
}
use github_idea_os_app.Types.Value.{text, object, field, end}
use github_idea_os_app.ApiClient.{
  ApiClient, Page, Answer, construct, load_client, auth_headers, fetch_end, parse_error_message,
  error_text, nonempty_text,
}
use native.Mathlib.Decide.{ℕ_discrete}
use github_idea_os_app.ApiClient.Unauthorized.{
  throws, says_why, fetch_end-throws, fetch_end_unauthorized,
}

abbrev client : ApiClient
client = record { base_url = "http://localhost"; token = some "t"; workspace_id = some "w" }

abbrev page : Page
page = record {
  storage = ("multica_token", "t") ∷ ("multica_workspace_id", "w") ∷ ("theme", "dark") ∷ [];
  pathname = "/issues";
}

abbrev refusal : Answer
refusal = record {
  ok = false;
  status = 401;
  status_text = "Unauthorized";
  body = some (object (field "error" (text "expired") end));
}

abbrev missing : Answer
missing = record { ok = false; status = 404; status_text = "Not Found"; body = none }

error_of_body : parse_error_message refusal.body "API error" ≡ "expired"
unfolding parse_error_message error_text nonempty_text string_discrete Bool-cases
error_of_body = refl

fetch_end-throws_example :
    (throws (fetch_end (λ n. "404") missing client (some page)).0
      ≡ (not missing.ok || (not (missing.status == 204) && not (is_some missing.body))))
    × (says_why (fetch_end (λ n. "404") missing client (some page)).0 ≡ true)
fetch_end-throws_example = fetch_end-throws (λ n. "404") missing client (some page)

is_not_401 : (not missing.ok && missing.status == 401) ≡ false
unfolding ℕ_discrete
is_not_401 = refl

has_distinct_keys : IsUnique (λ (e : String × String). e.0) page.storage
unfolding string_discrete Bool-cases
has_distinct_keys = (refl, (refl, (refl, tt)))

is_401 : (refusal.status == 401) ≡ true
unfolding ℕ_discrete
is_401 = refl

fetch_end_unauthorized_example :
    (after : Page) × ((fetch_end (λ n. "401") refusal client (some page)).2 ≡ some after)
    × (auth_headers (fetch_end (λ n. "401") refusal client (some page)).1 ≡ [])
    × (load_client client.base_url (some after) ≡ construct client.base_url)
    × (after.pathname ≡ "/")
fetch_end_unauthorized_example =
    fetch_end_unauthorized (λ n. "401") refusal client page has_distinct_keys refl is_401
