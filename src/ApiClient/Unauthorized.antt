-- ===== src/ApiClient/Unauthorized.antt =====
-- The headers of a request, and what an answer leaves of the client.
use github_idea_os_app.Base.{
  ℕ, String, ◌≡◌, refl, ◌∙◌, ◌≢◌, inl, inr, Bool, true, false, not, ◌&&◌, ◌||◌, is_some, Option,
  none, some, [], ◌∷◌, arith, if◌then◌else◌, Bool-cases, Option-cases, ◌==◌, string_eq,
  string_discrete, nat_eq, option_eq, is_nonempty,
}
use github_idea_os_app.Base.Dict.{
  Dict, get, set, delete, get-delete, HasUniqueKeys, delete-HasUniqueKeys,
}
use github_idea_os_app.Types.Value.{Value, object, text}
use github_idea_os_app.ApiClient.{
  ApiClient, Page, token_key, workspace_key, construct, load_client, auth_headers, set_header,
  nonempty_text, spread, fetch_headers, handle_unauthorized, Answer, Outcome, value, nothing,
  failed, no_json, outcome_of, error_text, parse_error_message, fetch_end, upload_file_end,
  field_of,
}
use Prim.Native.String.{◌++◌ as text_append}
use Prim.Native.String.append

-- The text of a header, when there is one.
abbrev pub as_header : (String → String) → Option String → Option String
as_header f none = none
as_header f (some s) = if is_nonempty s then some (f s) else none

abbrev put : String → Option String → Dict String String → Dict String String
put name none headers = headers
put name (some v) headers = set name v headers

set_header_lem :
    (name : String) (f : String → String) (o : Option String) (headers : Dict String String)
    → set_header name f o headers ≡ put name (as_header f o) headers
set_header_lem name f none headers = refl
set_header_lem name f (some s) headers = elim (Bool-cases (is_nonempty s)) [
  | inl e ↦ rw e refl
  | inr e ↦ rw e refl
]

-- The headers that an optional token and an optional workspace give.
headers_for : String → Option String → Option String → Dict String String
headers_for rid t w =
    spread
      (spread (("Content-Type", "application/json") ∷ ("X-Request-ID", rid) ∷ [])
        (put "X-Workspace-ID" w (put "Authorization" t [])))
      []

headers_for_lem :
    (rid : String) (t w : Option String)
    → (get "Content-Type" (headers_for rid t w) ≡ some "application/json")
      × (get "X-Request-ID" (headers_for rid t w) ≡ some rid)
      × (get "Authorization" (headers_for rid t w) ≡ t)
      × (get "X-Workspace-ID" (headers_for rid t w) ≡ w)
unfolding headers_for spread set get string_discrete Bool-cases
headers_for_lem rid none none = (refl, refl, refl, refl)
headers_for_lem rid none (some w) = (refl, refl, refl, refl)
headers_for_lem rid (some t) none = (refl, refl, refl, refl)
headers_for_lem rid (some t) (some w) = (refl, refl, refl, refl)

-- Without headers of its own a request carries the type of its body, its id, the token and the
-- workspace of the client, each of the latter only when there is one.
fetch_headers_lem :
    (c : ApiClient) (rid : String)
    → (get "Content-Type" (fetch_headers c rid []) ≡ some "application/json")
      × (get "X-Request-ID" (fetch_headers c rid []) ≡ some rid)
      × (get "Authorization" (fetch_headers c rid []) ≡ as_header (text_append "Bearer ") c.token)
      × (get "X-Workspace-ID" (fetch_headers c rid []) ≡ as_header (λ id. id) c.workspace_id)
unfolding fetch_headers auth_headers headers_for
fetch_headers_lem c rid =
    rw
      (
        set_header_lem "Authorization" (text_append "Bearer ") c.token [],
        set_header_lem "X-Workspace-ID" (λ id. id) c.workspace_id
            (put "Authorization" (as_header (text_append "Bearer ") c.token) []),
      )
      (headers_for_lem rid (as_header (text_append "Bearer ") c.token)
        (as_header (λ id. id) c.workspace_id))

nonempty_of : (s : String) → s ≢ "" → is_nonempty s ≡ true
nonempty_of s h = ground arith

text_append_nonempty : (s t : String) → s ≢ "" → text_append s t ≢ ""
text_append_nonempty String.[] t h = absurd (h refl)
text_append_nonempty (String.◌∷◌ c s) t h = rw (append.cons c s t) (λ p. cc)

nonempty_text_lem :
    (o : Option Value) (s : String) → nonempty_text o ≡ some s → is_nonempty s ≡ true
unfolding nonempty_text
nonempty_text_lem none s h = cc
nonempty_text_lem (some (text t)) s h = ground arith
nonempty_text_lem _ s h = cc

error_nonempty :
    (body : Option Value) (s : String) → error_text body ≡ some s → is_nonempty s ≡ true
unfolding error_text
error_nonempty none s h = cc
error_nonempty (some (object fs)) s h = nonempty_text_lem (field_of "error" fs) s h
error_nonempty _ s h = cc

message_nonempty :
    (body : Option Value) (fallback : String)
    → fallback ≢ ""
    → is_nonempty (parse_error_message body fallback) ≡ true
unfolding parse_error_message
message_nonempty body fallback h = elim (Option-cases (error_text body)) [
  | inl e ↦ rw e (nonempty_of fallback h)
  | inr (s, e) ↦ rw e (error_nonempty body s e)
]

-- What is taken out of the storage is gone.
keys_gone :
    (m : Dict String String)
    → HasUniqueKeys m
    → (get token_key (delete workspace_key (delete token_key m)) ≡ none)
      × (get workspace_key (delete workspace_key (delete token_key m)) ≡ none)
unfolding string_discrete Bool-cases
keys_gone m u = (
  get-delete workspace_key token_key (delete token_key m) (delete-HasUniqueKeys token_key m u)
      ∙ get-delete token_key token_key m u,
  get-delete workspace_key workspace_key (delete token_key m) (delete-HasUniqueKeys token_key m u),
)

load_client_empty :
    (base_url : String) (page : Page)
    → get token_key page.storage ≡ none
    → get workspace_key page.storage ≡ none
    → load_client base_url (some page) ≡ construct base_url
unfolding load_client
load_client_empty base_url page h k = rw (h, k) refl

to_root : (pathname : String) → (if pathname == "/" then pathname else "/") ≡ "/"
to_root pathname = ground arith

-- A call that gives this throws.
abbrev pub throws : Outcome → Bool
throws (value v) = false
throws nothing = false
throws (failed message) = true
throws no_json = true

-- An error that the client makes has a message.
abbrev pub says_why : Outcome → Bool
says_why (failed message) = is_nonempty message
says_why _ = true

module _ (to_text : ℕ → String) where
  refused_says_why :
      (res : Answer)
      → is_nonempty (
          parse_error_message res.body (
            text_append "API error: "
              (text_append (to_text res.status) (text_append " " res.status_text))))
        ≡ true
  refused_says_why res =
      message_nonempty res.body _ (text_append_nonempty "API error: " _ (λ p. cc))

  -- Whatever the server answers, a call throws exactly when it is refused, or when it is accepted with
  -- a status other than 204 and a body that is no JSON; when it is refused, the message is not empty.
  pub fetch_end-throws :
      (res : Answer) (c : ApiClient) (page : Option Page)
      → (throws (fetch_end to_text res c page).0
          ≡ (not res.ok || (not (res.status == 204) && not (is_some res.body))))
        × (says_why (fetch_end to_text res c page).0 ≡ true)
  unfolding fetch_end
  fetch_end-throws res c page = elim (Bool-cases res.ok) [
    | inr e ↦ rw (fetch_end, e) (refl, refused_says_why res)
    | inl e ↦ elim (Bool-cases (res.status == 204)) [
      | inl f ↦ rw (fetch_end, e, f) (refl, refl)
      | inr f ↦ rw (fetch_end, e, f) (body_given res.body)
    ]
  ]
    where
      body_given :
          (body : Option Value)
          → (throws (outcome_of body) ≡ not (is_some body)) × (says_why (outcome_of body) ≡ true)
      body_given none = (refl, refl)
      body_given (some v) = (refl, refl)

  -- Every answer but a refusal with status 401 leaves the client and the page as they are, for a
  -- call and for an upload.
  pub fetch_end_keeps :
      (res : Answer) (c : ApiClient) (page : Option Page)
      → (not res.ok && res.status == 401) ≡ false
      → ((fetch_end to_text res c page).1 ≡ c)
        × ((fetch_end to_text res c page).2 ≡ page)
        × ((upload_file_end to_text res c page).1 ≡ c)
        × ((upload_file_end to_text res c page).2 ≡ page)
  unfolding fetch_end upload_file_end
  fetch_end_keeps res c page h = elim (Bool-cases res.ok) [
    | inl e ↦ rw e (refl, refl, refl, refl)
    | inr e ↦ rw (e, not_401 e) (refl, refl, refl, refl)
  ]
    where
      not_401 : res.ok ≡ false → (res.status == 401) ≡ false
      not_401 e = rw e at h

  -- After a refusal with status 401 in a page, the client sends neither token nor workspace, both
  -- are gone from the storage, so that a client loaded anew has none either, and the page is `/`.
  pub fetch_end_unauthorized :
      (res : Answer) (c : ApiClient) (page : Page)
      → HasUniqueKeys page.storage
      → res.ok ≡ false
      → (res.status == 401) ≡ true
      → (after : Page) × ((fetch_end to_text res c (some page)).2 ≡ some after)
        × (auth_headers (fetch_end to_text res c (some page)).1 ≡ [])
        × (load_client c.base_url (some after) ≡ construct c.base_url)
        × (after.pathname ≡ "/")
  unfolding fetch_end handle_unauthorized auth_headers
  fetch_end_unauthorized res c page u h k =
      rw (h, k)
        (
          _,
          refl,
          refl,
          load_client_empty c.base_url _ (keys_gone page.storage u).0 (keys_gone page.storage u).1,
          to_root page.pathname,
        )
