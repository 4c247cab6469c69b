-- ===== src/Base/Text.antt =====
-- `s.trim()` and `s.trim() === ""` for texts as lists of characters.
use Prim.Native.Nat.{ℕ}
use Prim.Native.Char.{code}
use Prim.Native.String.{String}
use mathlib.Core.Bool.{Bool, true, false, ◌&&◌, ◌||◌}
use mathlib.Core.List.{List, [], ◌∷◌}
use github_idea_os_app.Base.Compare.{if◌then◌else◌, ◌==◌, nat_eq, leb}

-- White space and line terminators of ECMAScript, by code point.
abbrev pub is_space : ℕ → Bool
is_space c =
    (leb 9 c && leb c 13)
    || c == 32
    || c == 160
    || c == 0x1680
    || (leb 0x2000 c && leb c 0x200a)
    || c == 0x2028
    || c == 0x2029
    || c == 0x202f
    || c == 0x205f
    || c == 0x3000
    || c == 0xfeff

-- `s.trim() === ""`: every character is white space.
unfoldable pub is_blank : String → Bool
is_blank String.[] = true
is_blank (String.◌∷◌ c s) = is_space (code c) && is_blank s

-- `s.trim()`
abbrev pub is_nil : String → Bool
is_nil String.[] = true
is_nil (String.◌∷◌ c s) = false

unfoldable pub trim_start : String → String
trim_start String.[] = String.[]
trim_start (String.◌∷◌ c s) =
    let rest = trim_start s in if is_space (code c) then rest else String.◌∷◌ c s

unfoldable pub trim_end : String → String
trim_end String.[] = String.[]
trim_end (String.◌∷◌ c s) =
    let rest = trim_end s in
    if is_nil rest && is_space (code c) then String.[] else String.◌∷◌ c rest

unfoldable pub trim : String → String
trim s = trim_end (trim_start s)

-- `s.startsWith(p)`
unfoldable pub starts_with : String → String → Bool
starts_with s String.[] = true
starts_with String.[] (String.◌∷◌ c p) = false
starts_with (String.◌∷◌ d s) (String.◌∷◌ c p) = code d == code c && starts_with s p

-- `s.split("\n")` as its first line and the others.
unfoldable pub lines_from : String → String × List String
lines_from String.[] = (String.[], [])
lines_from (String.◌∷◌ c s) =
    let rest = lines_from s in
    if code c == 10 then (String.[], rest.0 ∷ rest.1) else (String.◌∷◌ c rest.0, rest.1)

unfoldable pub split_lines : String → List String
split_lines s = let all = lines_from s in all.0 ∷ all.1

-- `s.split(c)` for one character, by its code point, as its first part and the others.
unfoldable pub split_from : ℕ → String → String × List String
split_from c String.[] = (String.[], [])
split_from c (String.◌∷◌ d s) =
    let rest = split_from c s in
    if code d == c then (String.[], rest.0 ∷ rest.1) else (String.◌∷◌ d rest.0, rest.1)

unfoldable pub split_on : ℕ → String → List String
split_on c s = let parts = split_from c s in parts.0 ∷ parts.1
