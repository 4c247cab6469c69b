-- ===== src/Linkify/Convert.antt =====
-- The text that `preprocessLinks` gives, as pieces: what is left as it is, and links.
use github_idea_os_app.Base.{
  ℕ, zero, suc, ◌+◌, ◌-◌, ◌≤◌, ◌≡◌, refl, sym, ap, ◌∙◌, inl, inr, Bool, true, not, ◌||◌, List, [],
  ◌∷◌, ◌++◌, arith, if◌then◌else◌, Bool-cases, string_eq, nat_eq, option_eq, any, filter, leb, ltb,
  ◌&&◌,
}
use mathlib.Core.List.{append_assoc, append-nil}
use github_idea_os_app.Linkify.{
  Units, take, drop, slice, DetectedLink, CodeRange, markdown_link, is_skipped, is_inside_code,
  is_already_linked, convert, preprocess_links,
}

pub data Piece : Type 0 where
  plain : Units → Piece
  link : DetectedLink → Piece

-- Where a piece comes from, and what becomes of it.
abbrev pub source : Units → Piece → Units
source text (plain u) = u
source text (link l) = slice l.start l.stop text

abbrev pub render : Piece → Units
render (plain u) = u
render (link l) = markdown_link l

abbrev pub concat : (Piece → Units) → List Piece → Units
concat f [] = []
concat f (p ∷ ps) = f p ++ concat f ps

-- The links among the pieces.
abbrev pub converted : List Piece → List DetectedLink
converted [] = []
converted (plain u ∷ ps) = converted ps
converted (link l ∷ ps) = l ∷ converted ps

-- The first position of a link lies in none of the ranges, and the text does not link it already.
abbrev pub is_free : Units → List CodeRange → DetectedLink → Bool
is_free text ranges l =
    not (any (λ (r : CodeRange). leb r.start l.start && ltb l.start r.stop) ranges)
    && not (is_already_linked text l.start l.stop)

free_unless_skipped :
    (text : Units) (ranges : List CodeRange) (l : DetectedLink)
    → is_free text ranges l ≡ not (is_skipped text ranges l)
unfolding is_inside_code
free_unless_skipped text ranges l =
    not_or (any (λ (r : CodeRange). leb r.start l.start && ltb l.start r.stop) ranges)
      (is_already_linked text l.start l.stop)
  where
    not_or : (a b : Bool) → (not a && not b) ≡ not (a || b)
    not_or a b = ground arith

-- The links stand one after the other, from a position on.
abbrev pub AreApart : ℕ → List DetectedLink → Type 0
AreApart n [] = Unit
AreApart n (l ∷ ls) = (n ≤ l.start) × (l.start ≤ l.stop) × AreApart l.stop ls

AreApart-weaken : (n m : ℕ) (ls : List DetectedLink) → n ≤ m → AreApart m ls → AreApart n ls
AreApart-weaken n m [] h a = tt
AreApart-weaken n m (l ∷ ls) h (p, q, a) = (omega arith, q, a)

take-drop : (n : ℕ) (xs : Units) → take n xs ++ drop n xs ≡ xs
take-drop zero xs = refl
take-drop (suc n) [] = refl
take-drop (suc n) (x ∷ xs) = ap (λ ys. x ∷ ys) (take-drop n xs)

drop-nil : (n : ℕ) → drop {A = ℕ} n [] ≡ []
drop-nil zero = refl
drop-nil (suc n) = refl

drop-drop : (n m : ℕ) (xs : Units) → drop n (drop m xs) ≡ drop (m + n) xs
drop-drop n zero xs = ap (λ k. drop k xs) (omega arith)
drop-drop n (suc m) [] = drop-nil n ∙ sym (drop-nil (suc m + n))
drop-drop n (suc m) (x ∷ xs) = drop-drop n m xs ∙ ap (λ k. drop k (x ∷ xs)) (shift m n)
  where
    shift : (m n : ℕ) → suc (m + n) ≡ suc m + n
    shift m n = omega arith

slice-drop : (a b : ℕ) (text : Units) → a ≤ b → slice a b text ++ drop b text ≡ drop a text
slice-drop a b text h =
    ap (λ ys. slice a b text ++ ys)
      (ap (λ n. drop n text) (sum a b h) ∙ sym (drop-drop (b - a) a text))
    ∙ take-drop (b - a) (drop a text)
  where
    sum : (a b : ℕ) → a ≤ b → b ≡ a + (b - a)
    sum a b h = omega arith

-- The pieces from `last_index` on.
abbrev pub pieces : Units → List CodeRange → ℕ → List DetectedLink → List Piece
pieces text ranges last_index [] = plain (drop last_index text) ∷ []
pieces text ranges last_index (l ∷ ls) =
    let skip = pieces text ranges last_index ls in
    let more = pieces text ranges l.stop ls in
    if is_skipped text ranges l then skip else plain (slice last_index l.start text) ∷ link l ∷ more

pieces-render :
    (text : Units) (ranges : List CodeRange) (n : ℕ) (ls : List DetectedLink)
    → concat render (pieces text ranges n ls) ≡ convert text ranges n ls
unfolding convert
pieces-render text ranges n [] = append-nil (drop n text)
pieces-render text ranges n (l ∷ ls) = elim (Bool-cases (is_skipped text ranges l)) [
  | inl e ↦ rw e (pieces-render text ranges n ls)
  | inr e ↦
      rw (e, pieces-render text ranges l.stop ls)
        (sym
          (append_assoc (slice n l.start text) (markdown_link l) (convert text ranges l.stop ls)))
]

pieces-source :
    (text : Units) (ranges : List CodeRange) (n : ℕ) (ls : List DetectedLink)
    → AreApart n ls
    → concat (source text) (pieces text ranges n ls) ≡ drop n text
pieces-source text ranges n [] a = append-nil (drop n text)
pieces-source text ranges n (l ∷ ls) (p, q, a) = elim (Bool-cases (is_skipped text ranges l)) [
  | inl e ↦ rw e (pieces-source text ranges n ls (AreApart-weaken n l.stop ls (omega arith) a))
  | inr e ↦
      rw
        (
          e,
          pieces-source text ranges l.stop ls a,
          slice-drop l.start l.stop text q,
          slice-drop n l.start text p,
        )
        refl
]

pieces-converted :
    (text : Units) (ranges : List CodeRange) (n : ℕ) (ls : List DetectedLink)
    → converted (pieces text ranges n ls) ≡ filter (is_free text ranges) ls
pieces-converted text ranges n [] = refl
pieces-converted text ranges n (l ∷ ls) = elim (Bool-cases (is_skipped text ranges l)) [
  | inl e ↦ rw (e, free_unless_skipped text ranges l ∙ ap not e) (pieces-converted text ranges n ls)
  | inr e ↦
      rw (e, free_unless_skipped text ranges l ∙ ap not e)
        (ap (λ ks. l ∷ ks) (pieces-converted text ranges l.stop ls))
]

-- When the quick check says that there may be links, and the links stand apart from each other, the
-- text falls into pieces whose sources make up the whole text in order: the result keeps each plain
-- piece as it is and puts a markdown link in place of each other one. The links that are converted
-- are, in order, all those whose first position is in no code and that are not linked already.
pub preprocess_links_lem :
    (text : Units) (ranges : List CodeRange) (links : List DetectedLink)
    → AreApart 0 links
    → (ps : List Piece) × (concat (source text) ps ≡ text)
      × (preprocess_links true text ranges links ≡ concat render ps)
      × (converted ps ≡ filter (is_free text ranges) links)
unfolding preprocess_links
preprocess_links_lem text ranges [] a =
    (plain text ∷ [], append-nil text, sym (append-nil text), refl)
preprocess_links_lem text ranges (l ∷ ls) a = (
  pieces text ranges 0 (l ∷ ls),
  pieces-source text ranges 0 (l ∷ ls) a,
  sym (pieces-render text ranges 0 (l ∷ ls)),
  pieces-converted text ranges 0 (l ∷ ls),
)
