-- ===== src/ApiClient.antt =====
-- apps/web/shared/api/client.ts and index.ts: the client's state, the headers of a request, and what
-- an answer does. The page is none where there is no `window`. `to_text` stands for the text of a
-- number in a template. What is only logged is left out.
pub mod Request
pub mod Accounts
pub mod Issues
pub mod Agents
pub mod Workspaces
mod Laws
mod Unauthorized
mod Tests
use github_idea_os_app.Base.{
  ℕ, zero, suc, ◌+◌, ◌-◌, ◌*◌, ◌/◌, ◌%◌, ◌≤◌, ◌<◌, Ordering, compare, String, ◌≡◌, refl, sym, ap,
  subst, ◌∙◌, ◌≢◌, ◌↔◌, ◌⊎◌, inl, inr, Bool, true, false, not, ◌&&◌, ◌||◌, Option, none, some, List,
  [], ◌∷◌, ◌++◌, map, arith, if◌then◌else◌, Bool-cases, Option-cases, Eq, ◌==◌, string_eq,
  string_discrete, nat_eq, option_eq, ltb, leb, get_or, or_else, is_some, is_nonempty, is_truthy,
  length, any, filter, find, head?, is_empty, All, length-append, length-filter-le, any-append,
  any-filter, filter-append, includes, has, IsUnique, IsUnique-concat, IsUnique-filter, has-map,
  IsUnique-map, map_option, find_key, remove_key, map_key, add_new, has-find_key, find_key-append,
  find_key-remove_key, any-eq_true, All-append, All-filter, All-of_forall, All-imp, All-filter-map,
  eq_nil_of_All, map-congr, map-map, All-zip, All-of_none, All-filter_self, any_of_All, All-mem,
  Mem, Perm, find_key-map_key, find_key-add_new, IsUnique-add_new, IsUnique-map_key,
}
use github_idea_os_app.Base.Dict.{Dict, get, set, delete}
use github_idea_os_app.Types.Value.{
  Value, null, boolean, number, text, array, object, Fields, end, field,
}
use Prim.Native.String.{◌++◌ as text_append}

pub record ApiClient : Type 0 where
  pub base_url : String
  pub token : Option String
  pub workspace_id : Option String

-- `localStorage` and `window.location.pathname`
pub record Page : Type 0 where
  pub storage : Dict String String
  pub pathname : String

abbrev pub token_key : String
token_key = "multica_token"

abbrev pub workspace_key : String
workspace_key = "multica_workspace_id"

unfoldable pub construct : String → ApiClient
construct base_url = record { base_url = base_url; token = none; workspace_id = none }

unfoldable pub set_token : Option String → ApiClient → ApiClient
set_token token c = record c { token = token }

unfoldable pub set_workspace_id : Option String → ApiClient → ApiClient
set_workspace_id id c = record c { workspace_id = id }

-- The client that index.ts makes when it is loaded.
unfoldable pub load_client : String → Option Page → ApiClient
load_client base_url none = construct base_url
load_client base_url (some page) =
    let token = get token_key page.storage in
    let id = get workspace_key page.storage in
    let with_token =
      if is_truthy token then set_token token (construct base_url) else construct base_url in
    if is_truthy id then set_workspace_id id with_token else with_token

-- `if (value) headers[name] = …`
abbrev pub set_header :
    String → (String → String) → Option String → Dict String String → Dict String String
set_header name f none headers = headers
set_header name f (some s) headers = if is_nonempty s then set name (f s) headers else headers

unfoldable pub auth_headers : ApiClient → Dict String String
auth_headers c =
    set_header "X-Workspace-ID" (λ id. id) c.workspace_id
      (set_header "Authorization" (text_append "Bearer ") c.token [])

-- `{ ...headers, ...more }`
unfoldable pub spread : Dict String String → Dict String String → Dict String String
spread headers [] = headers
spread headers ((name, value) ∷ more) = spread (set name value headers) more

unfoldable pub fetch_headers : ApiClient → String → Dict String String → Dict String String
fetch_headers c rid own =
    spread
      (spread (("Content-Type", "application/json") ∷ ("X-Request-ID", rid) ∷ []) (auth_headers c))
      own

unfoldable pub handle_unauthorized : ApiClient → Option Page → ApiClient × Option Page
handle_unauthorized c none = (c, none)
handle_unauthorized c (some page) = (
  record c { token = none; workspace_id = none },
  some (record {
    storage = delete workspace_key (delete token_key page.storage);
    pathname = if page.pathname == "/" then page.pathname else "/";
  }),
)

-- An answer of `fetch`; the body is none when it is no JSON.
pub record Answer : Type 0 where
  pub ok : Bool
  pub status : ℕ
  pub status_text : String
  pub body : Option Value

abbrev pub field_of : String → Fields → Option Value
field_of name end = none
field_of name (field key value rest) = if key == name then some value else field_of name rest

-- `typeof value === "string" && value`
unfoldable pub nonempty_text : Option Value → Option String
nonempty_text (some (text s)) = if is_nonempty s then some s else none
nonempty_text _ = none

-- `data.error`, when the body is an object.
unfoldable pub error_text : Option Value → Option String
error_text (some (object fs)) = nonempty_text (field_of "error" fs)
error_text _ = none

unfoldable pub parse_error_message : Option Value → String → String
parse_error_message body fallback = get_or (error_text body) fallback

-- What a call ends with: a value, nothing, or an error.
pub data Outcome : Type 0 where
  value : Value → Outcome
  nothing : Outcome
  failed : String → Outcome
  no_json : Outcome

abbrev pub outcome_of : Option Value → Outcome
outcome_of none = no_json
outcome_of (some v) = value v

-- `if (res.status === 401) this.handleUnauthorized()`
abbrev pub check_unauthorized : ℕ → ApiClient → Option Page → ApiClient × Option Page
check_unauthorized status c page = if status == 401 then handle_unauthorized c page else (c, page)

module _ (to_text : ℕ → String) where
  -- The part of `fetch` after its `await`.
  unfoldable pub fetch_end : Answer → ApiClient → Option Page → Outcome × ApiClient × Option Page
  fetch_end res c page =
      let after = check_unauthorized res.status c page in
      if not res.ok
      then (
        failed (
            parse_error_message res.body (
              text_append "API error: "
                (text_append (to_text res.status) (text_append " " res.status_text)))),
        after.0,
        after.1,
      )
      else (if res.status == 204 then nothing else outcome_of res.body, c, page)

  -- The same of `uploadFile`.
  unfoldable pub upload_file_end :
      Answer → ApiClient → Option Page → Outcome × ApiClient × Option Page
  upload_file_end res c page =
      let after = check_unauthorized res.status c page in
      if not res.ok
      then (
        failed (parse_error_message res.body (text_append "Upload failed: " (to_text res.status))),
        after.0,
        after.1,
      )
      else (outcome_of res.body, c, page)
