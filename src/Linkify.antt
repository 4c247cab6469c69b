-- ===== src/Linkify.antt =====
-- apps/web/components/markdown/linkify.ts. A text is the list of its code units, so that positions
-- count as in the source. The matches that the regular expressions and linkify-it find in the text,
-- and the answers of their tests, are arguments.
pub mod Ranges
pub mod Convert
mod Tests
use github_idea_os_app.Base.{
  ℕ, zero, suc, ◌+◌, ◌-◌, ◌*◌, ◌/◌, ◌%◌, ◌≤◌, ◌<◌, Ordering, compare, String, ◌≡◌, refl, sym, ap,
  subst, ◌∙◌, ◌≢◌, ◌↔◌, ◌⊎◌, inl, inr, Bool, true, false, not, ◌&&◌, ◌||◌, Option, none, some, List,
  [], ◌∷◌, ◌++◌, map, arith, if◌then◌else◌, Bool-cases, Option-cases, Eq, ◌==◌, string_eq,
  string_discrete, nat_eq, option_eq, ltb, leb, get_or, or_else, is_some, is_nonempty, is_truthy,
  length, any, filter, find, head?, is_empty, All, length-append, length-filter-le, any-append,
  any-filter, filter-append, includes, has, IsUnique, IsUnique-concat, IsUnique-filter, has-map,
  IsUnique-map, map_option, find_key, remove_key, map_key, add_new, has-find_key, find_key-append,
  find_key-remove_key, any-eq_true, All-append, All-filter, All-of_forall, All-imp, All-filter-map,
  eq_nil_of_All, map-congr, map-map, All-zip, All-of_none, All-filter_self, any_of_All, All-mem,
  Mem, Perm, find_key-map_key, find_key-add_new, IsUnique-add_new, IsUnique-map_key,
}
use github_idea_os_app.Base.Sort.{sort}

abbrev pub Units : Type 0
Units = List ℕ

abbrev pub take {ℓ} : {A : Type ℓ} → ℕ → List A → List A
take zero xs = []
take (suc n) [] = []
take (suc n) (x ∷ xs) = x ∷ take n xs

abbrev pub drop {ℓ} : {A : Type ℓ} → ℕ → List A → List A
drop zero xs = xs
drop (suc n) [] = []
drop (suc n) (x ∷ xs) = drop n xs

-- `text.slice(start, end)` and `text.slice(start)`
abbrev pub slice : ℕ → ℕ → Units → Units
slice start stop text = take (stop - start) (drop start text)

pub data LinkType : Type 0 where
  url email file : LinkType

pub record DetectedLink : Type 0 where
  pub type : LinkType
  pub text : Units
  pub target : Units
  pub start : ℕ
  pub stop : ℕ

pub record CodeRange : Type 0 where
  pub start : ℕ
  pub stop : ℕ

-- What `exec` of a regular expression of code or of math gives: `match.index` and the length of `match[0]`.
pub record Match : Type 0 where
  pub index : ℕ
  pub length : ℕ

-- What linkify-it gives.
pub record UrlMatch : Type 0 where
  pub is_mailto : Bool
  pub text : Units
  pub url : Units
  pub index : ℕ
  pub last_index : ℕ

-- What `FILE_PATH_REGEX.exec` gives: `match.index`, `match[0]` and `match[1]`.
pub record FileMatch : Type 0 where
  pub index : ℕ
  pub full_match : Units
  pub path : Units

abbrev to_range : Match → CodeRange
to_range m = record { start = m.index; stop = m.index + m.length }

-- `ranges.some((r) => pos >= r.start && pos < r.end)`
unfoldable pub is_inside_code : ℕ → List CodeRange → Bool
is_inside_code pos = any (λ (r : CodeRange). leb r.start pos && ltb pos r.stop)

unfoldable pub add_outside : List Match → List CodeRange → List CodeRange
add_outside [] ranges = ranges
add_outside (m ∷ ms) ranges =
    add_outside ms (if is_inside_code m.index ranges then ranges else ranges ++ to_range m ∷ [])

unfoldable pub find_code_ranges : List Match → List Match → List Match → List Match → List CodeRange
find_code_ranges fenced display_math inline_math inline =
    add_outside inline (add_outside inline_math (add_outside display_math (map to_range fenced)))

-- `]` and `[` and `(`
abbrev closing : ℕ
closing = 93

abbrev opening : ℕ
opening = 91

abbrev parenthesis : ℕ
parenthesis = 40

-- `text[i]`, with undefined as none; the index -1 is `none` too.
abbrev unit_at : Units → ℕ → Option ℕ
unit_at text i = head? (drop i text)

unfoldable pub is_already_linked : Units → ℕ → ℕ → Bool
is_already_linked text link_start link_end =
    let before = slice (link_start - 2) link_start text in
    let char_before = if link_start == 0 then none else unit_at text (link_start - 1) in
    let char_after = unit_at text link_end in
    ends_with_link before || (char_before == some opening && char_after == some closing)
  where
    ends_with_link : Units → Bool
    ends_with_link [] = false
    ends_with_link (a ∷ []) = false
    ends_with_link (a ∷ b ∷ rest) = a == closing && (b == parenthesis || b == opening)

unfoldable pub ranges_overlap : CodeRange → CodeRange → Bool
ranges_overlap a b = ltb a.start b.stop && ltb b.start a.stop

abbrev pub link_range : DetectedLink → CodeRange
link_range l = record { start = l.start; stop = l.stop }

unfoldable pub is_prefix : Units → Units → Bool
is_prefix [] ys = true
is_prefix (x ∷ xs) [] = false
is_prefix (x ∷ xs) (y ∷ ys) = x == y && is_prefix xs ys

-- `full.indexOf(path)`
unfoldable pub index_of : Units → Units → Option ℕ
index_of path [] = if is_empty path then some 0 else none
index_of path (x ∷ xs) =
    let rest = map_option suc (index_of path xs) in if is_prefix path (x ∷ xs) then some 0 else rest

abbrev pub url_link : UrlMatch → DetectedLink
url_link m = record {
  type = if m.is_mailto then email else url;
  text = m.text;
  target = m.url;
  start = m.index;
  stop = m.last_index;
}

-- Where the path starts. `indexOf` finds the path, a group of the match; it would give -1 else.
unfoldable pub path_start : FileMatch → ℕ
path_start m = elim (index_of m.path m.full_match) [
  | none ↦ m.index - 1
  | some offset ↦ m.index + offset
]

abbrev pub file_link : FileMatch → DetectedLink
file_link m = record {
  type = file;
  text = m.path;
  target = m.path;
  start = path_start m;
  stop = path_start m + length m.path;
}

unfoldable pub add_files : List FileMatch → List DetectedLink → List DetectedLink
add_files [] links = links
add_files (m ∷ ms) links = add_files ms (
    if is_empty m.path
      || any (λ (l : DetectedLink). ranges_overlap (link_range (file_link m)) (link_range l)) links
    then links
    else links ++ file_link m ∷ [])

abbrev pub compare_start : DetectedLink → DetectedLink → Ordering
compare_start a b = compare a.start b.start

unfoldable pub detect_links : List UrlMatch → List FileMatch → List DetectedLink
detect_links url_matches file_matches =
    sort compare_start (add_files file_matches (map url_link url_matches))

-- `[${link.text}](${link.url})`
unfoldable pub markdown_link : DetectedLink → Units
markdown_link l = opening ∷ l.text ++ closing ∷ parenthesis ∷ l.target ++ 41 ∷ []

abbrev pub is_skipped : Units → List CodeRange → DetectedLink → Bool
is_skipped text ranges l = is_inside_code l.start ranges || is_already_linked text l.start l.stop

-- What the loop and the line after it add to the result from `last_index` on.
unfoldable pub convert : Units → List CodeRange → ℕ → List DetectedLink → Units
convert text ranges last_index [] = drop last_index text
convert text ranges last_index (l ∷ ls) =
    let skip = convert text ranges last_index ls in
    let link = slice last_index l.start text ++ markdown_link l ++ convert text ranges l.stop ls in
    if is_skipped text ranges l then skip else link

-- `preprocessLinks`, with the answer of the quick check.
unfoldable pub preprocess_links : Bool → Units → List CodeRange → List DetectedLink → Units
preprocess_links may_have_links text code_ranges links =
    if not may_have_links || is_empty links then text else convert text code_ranges 0 links
