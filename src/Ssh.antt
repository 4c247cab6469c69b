-- ===== src/Ssh.antt =====
-- apps/web/features/runtimes/ssh.ts. Numbers of the metadata are as in Types/Value; -0 is 0.
pub mod Laws
mod Tests
use Prim.Native.String.{◌++◌ as text_append}
use github_idea_os_app.Base.{
  ℕ, zero, suc, ◌+◌, ◌-◌, ◌*◌, ◌/◌, ◌%◌, ◌≤◌, ◌<◌, Ordering, compare, String, ◌≡◌, refl, sym, ap,
  subst, ◌∙◌, ◌≢◌, ◌↔◌, ◌⊎◌, inl, inr, Bool, true, false, not, ◌&&◌, ◌||◌, Option, none, some, List,
  [], ◌∷◌, ◌++◌, map, arith, if◌then◌else◌, Bool-cases, Option-cases, Eq, ◌==◌, string_eq,
  string_discrete, nat_eq, option_eq, ltb, leb, get_or, or_else, is_some, is_nonempty, is_truthy,
  length, any, filter, find, head?, is_empty, All, length-append, length-filter-le, any-append,
  any-filter, filter-append, includes, has, IsUnique, IsUnique-concat, IsUnique-filter, has-map,
  IsUnique-map, map_option, find_key, remove_key, map_key, add_new, has-find_key, find_key-append,
  find_key-remove_key, any-eq_true, All-append, All-filter, All-of_forall, All-imp, All-filter-map,
  eq_nil_of_All, map-congr, map-map, All-zip, All-of_none, All-filter_self, any_of_All, All-mem,
  Mem, Perm, find_key-map_key, find_key-add_new, IsUnique-add_new, IsUnique-map_key,
}
use Prim.Native.Nat.{◌^◌}
use github_idea_os_app.Base.Dict.{Dict, get}
use github_idea_os_app.Base.Int.{ℤ, pos, negsuc}
use github_idea_os_app.Base.Text.{trim}
use github_idea_os_app.Types.Value.{Value, null, boolean, number, text, array, object}
use Prim.Native.Char.{code}

pub data RuntimeSshConfig : Type 0 where
  enabled : (host : String) (port : ℤ) (user : String) → RuntimeSshConfig
  disabled :
      (host : Option String) (port : Option ℤ) (user : Option String) (reason : String)
      → RuntimeSshConfig

-- `metadata.ssh_enabled === true`
unfoldable pub is_true : Option Value → Bool
is_true (some (boolean true)) = true
is_true _ = false

-- `typeof v === "string" ? v.trim() : ""`
unfoldable pub trimmed : Option Value → String
trimmed (some (text s)) = trim s
trimmed _ = ""

-- The digits that a text starts with, read in base 10; `none` if there is none.
unfoldable pub parse_digits : Option ℕ → String → Option ℕ
parse_digits read String.[] = read
parse_digits read (String.◌∷◌ c s) =
    let rest = parse_digits (some (get_or read 0 * 10 + (code c - 48))) s in
    if leb 48 (code c) && leb (code c) 57 then rest else read

abbrev pub negate : ℕ → ℤ
negate zero = pos 0
negate (suc n) = negsuc n

-- `Number.parseInt(s, 10)` of a text without white space at its start; `none` is NaN.
unfoldable pub parse_int : String → Option ℤ
parse_int String.[] = none
parse_int (String.◌∷◌ c s) =
    if code c == 45
    then map_option negate (parse_digits none s)
    else if code c == 43
    then map_option pos (parse_digits none s)
    else map_option pos (parse_digits none (String.◌∷◌ c s))

-- `n > 0`
abbrev pub is_positive : ℤ → Bool
is_positive (pos n) = ltb 0 n
is_positive (negsuc n) = false

abbrev pub positive_or_default : ℤ → ℤ
positive_or_default n = if is_positive n then n else pos 22

-- `Math.trunc` of n / 10 ^ places
unfoldable pub trunc : ℤ → ℕ → ℤ
trunc (pos n) places = pos (n / 10 ^ places)
trunc (negsuc n) places = negate (suc n / 10 ^ places)

-- Infinity and NaN are no finite numbers, and no texts.
unfoldable pub read_port : Option Value → ℤ
read_port (some (number n places)) = trunc n places
read_port (some (text s)) =
    if is_nonempty (trim s)
    then positive_or_default (get_or (parse_int (trim s)) (pos 22))
    else pos 22
read_port _ = pos 22

-- `s || null`
abbrev pub or_null : String → Option String
or_null s = if is_nonempty s then some s else none

unfoldable pub read_runtime_ssh_config : Dict String Value → RuntimeSshConfig
read_runtime_ssh_config metadata =
    let host = trimmed (get "ssh_host" metadata) in
    let user = trimmed (get "ssh_user" metadata) in
    let port = read_port (get "ssh_port" metadata) in
    if not (is_true (get "ssh_enabled" metadata))
    then disabled (or_null host) (if is_nonempty host || is_nonempty user then some port else none)
        (or_null user) "SSH access is not enabled for this runtime."
    else if not (is_nonempty host) || not (is_nonempty user)
    then disabled (or_null host) (some port) (or_null user)
        "SSH metadata is incomplete. Set ssh_host and ssh_user on the runtime."
    else enabled host (positive_or_default port) user

-- The key under which the storage keeps the session of a runtime.
unfoldable pub admin_ssh_session_storage_key : String → String
admin_ssh_session_storage_key runtime_id = text_append "multica_admin_ssh_session:" runtime_id
