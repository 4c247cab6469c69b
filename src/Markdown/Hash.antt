-- ===== src/Markdown/Hash.antt =====
-- `simpleHash`: the signed 32-bit number of JavaScript's bit operations is kept as the number below
-- 2 ^ 32 with the same bits, which `>>> 0` gives in the end.
pub mod Bounds
pub mod Xor
use github_idea_os_app.Base.{
  ℕ, zero, suc, ◌+◌, ◌-◌, ◌*◌, ◌/◌, ◌%◌, ◌≤◌, ◌<◌, Ordering, compare, String, ◌≡◌, refl, sym, ap,
  subst, ◌∙◌, ◌≢◌, ◌↔◌, ◌⊎◌, inl, inr, Bool, true, false, not, ◌&&◌, ◌||◌, Option, none, some, List,
  [], ◌∷◌, ◌++◌, map, arith, if◌then◌else◌, Bool-cases, Option-cases, Eq, ◌==◌, string_eq,
  string_discrete, nat_eq, option_eq, ltb, leb, get_or, or_else, is_some, is_nonempty, is_truthy,
  length, any, filter, find, head?, is_empty, All, length-append, length-filter-le, any-append,
  any-filter, filter-append, includes, has, IsUnique, IsUnique-concat, IsUnique-filter, has-map,
  IsUnique-map, map_option, find_key, remove_key, map_key, add_new, has-find_key, find_key-append,
  find_key-remove_key, any-eq_true, All-append, All-filter, All-of_forall, All-imp, All-filter-map,
  eq_nil_of_All, map-congr, map-map, All-zip, All-of_none, All-filter_self, any_of_All, All-mem,
  Mem, Perm, find_key-map_key, find_key-add_new, IsUnique-add_new, IsUnique-map_key,
}
use github_idea_os_app.Base.Text.{is_nil}
use Prim.Native.Nat.{bit_xor, ◌^◌}
use Prim.Native.Char.{Char, code}
use Prim.Native.String.{◌++◌ as text_append, char_at, count}

-- `((hash << 5) + hash) ^ c` for the code unit `c`
unfoldable pub hash_step : ℕ → ℕ → ℕ
hash_step hash c = bit_xor ((hash * 32 + hash) % 2 ^ 32) (c % 2 ^ 32)

unfoldable pub hash_from : ℕ → List ℕ → ℕ
hash_from hash [] = hash
hash_from hash (c ∷ cs) = hash_from (hash_step hash c) cs

-- The code units of a character: one, or a surrogate pair.
unfoldable pub code_units : String → List ℕ
code_units String.[] = []
code_units (String.◌∷◌ c s) =
    let rest = code_units s in
    if ltb (code c) 0x10000
    then code c ∷ rest
    else (0xd800 + (code c - 0x10000) / 1024) ∷ (0xdc00 + (code c - 0x10000) % 1024) ∷ rest

abbrev pub base36_digits : String
base36_digits = "0123456789abcdefghijklmnopqrstuvwxyz"

abbrev digit_text : ℕ → String
digit_text d = String.◌∷◌ (char_at base36_digits d) String.[]

-- `n.toString(36)`, of at most `fuel` digits.
unfoldable pub base36 : ℕ → ℕ → String
base36 zero n = String.[]
base36 (suc fuel) n =
    let more = base36 fuel (n / 36) in
    text_append (if n / 36 == 0 then String.[] else more) (digit_text (n % 36))

abbrev pub fuel36 : ℕ
fuel36 = 7

unfoldable pub simple_hash : String → String
simple_hash s = base36 fuel36 (hash_from 5381 (code_units s))
