-- ===== src/Linkify/Ranges.antt =====
-- Overlapping ranges, and which file matches become links.
use github_idea_os_app.Base.{
  ℕ, ◌≤◌, ◌<◌, ◌≡◌, refl, ◌↔◌, inl, inr, Bool, true, false, not, List, [], ◌∷◌, ◌++◌, map, arith,
  Bool-cases, string_eq, nat_eq, option_eq, ltb, any, is_empty, All, any-append, Perm, ◌||◌, ◌⊎◌,
  sym, ◌∙◌, subst, if◌then◌else◌, length, All-imp,
}
use github_idea_os_app.Base.Sort.{in_order, sort, IsSorted, IsOrder, sort-IsSorted, sort-perm}
use mathlib.Core.List.{append_assoc, append-nil}
use github_idea_os_app.Linkify.{
  Units, DetectedLink, CodeRange, UrlMatch, FileMatch, ranges_overlap, link_range, url_link,
  file_link, add_files, detect_links, compare_start,
}

-- A position of a range.
abbrev pub Inside : ℕ → CodeRange → Type 0
Inside p r = (r.start ≤ p) × (p < r.stop)

overlap_at :
    (a b : CodeRange)
    → a.start < a.stop
    → b.start < b.stop
    → ranges_overlap a b ≡ true
    → (p : ℕ) × Inside p a × Inside p b
unfolding ranges_overlap
overlap_at a b ha hb e = elim (Bool-cases (ltb a.start b.start)) [
  | inl less ↦ (b.start, (ground arith, ground arith), (ground arith, ground arith))
  | inr more ↦ (a.start, (ground arith, ground arith), (ground arith, ground arith))
]

overlap_of : (a b : CodeRange) → (p : ℕ) × Inside p a × Inside p b → ranges_overlap a b ≡ true
unfolding ranges_overlap
overlap_of a b (p, (h, k), (m, n)) = ground arith

-- Two ranges that are not empty overlap exactly when they share a position.
ranges_overlap_iff :
    (a b : CodeRange)
    → a.start < a.stop
    → b.start < b.stop
    → (ranges_overlap a b ≡ true) ↔ ((p : ℕ) × Inside p a × Inside p b)
ranges_overlap_iff a b ha hb = (overlap_at a b ha hb, overlap_of a b)

-- The link overlaps none of the others.
abbrev pub is_clear : List DetectedLink → DetectedLink → Bool
is_clear links l =
    not (any (λ (k : DetectedLink). ranges_overlap (link_range l) (link_range k)) links)

-- Every link is clear of those before it.
abbrev pub AreClear : List DetectedLink → List DetectedLink → Type 0
AreClear before [] = Unit
AreClear before (l ∷ ls) = (is_clear before l ≡ true) × AreClear (before ++ l ∷ []) ls

-- A match that has no path, or that overlaps one of the links, as a link made of the match itself does.
abbrev pub is_settled : List DetectedLink → FileMatch → Bool
is_settled links m =
    is_empty m.path
    || any (λ (k : DetectedLink). ranges_overlap (link_range (file_link m)) (link_range k)) links

nonempty_length : (u : Units) → is_empty u ≡ false → 0 < length u
nonempty_length [] e = cc
nonempty_length (x ∷ xs) e = omega arith

overlaps_self :
    (m : FileMatch)
    → is_empty m.path ≡ false
    → ranges_overlap (link_range (file_link m)) (link_range (file_link m)) ≡ true
unfolding ranges_overlap
overlaps_self m e = ground (arith, nonempty_length m.path e)

settled-append :
    (links more : List DetectedLink) (m : FileMatch)
    → is_settled links m ≡ true
    → is_settled (links ++ more) m ≡ true
settled-append links more m h = ground (
  arith,
  any-append (λ (k : DetectedLink). ranges_overlap (link_range (file_link m)) (link_range k)) links
      more,
)

settled_self :
    (links more : List DetectedLink) (m : FileMatch)
    → is_empty m.path ≡ false
    → is_settled (links ++ file_link m ∷ more) m ≡ true
settled_self links more m e = ground (
  arith,
  overlaps_self m e,
  any-append (λ (k : DetectedLink). ranges_overlap (link_range (file_link m)) (link_range k)) links
      (file_link m ∷ more),
)

-- The matches that become links, in order.
abbrev chosen : List FileMatch → List DetectedLink → List FileMatch
chosen [] links = []
chosen (m ∷ ms) links =
    let skip = chosen ms links in
    let more = chosen ms (links ++ file_link m ∷ []) in
    if is_settled links m then skip else m ∷ more

add_files-chosen :
    (ms : List FileMatch) (links : List DetectedLink)
    → add_files ms links ≡ links ++ map file_link (chosen ms links)
unfolding add_files
add_files-chosen [] links = sym (append-nil links)
add_files-chosen (m ∷ ms) links = elim (Bool-cases (is_settled links m)) [
  | inl e ↦ rw e (add_files-chosen ms links)
  | inr e ↦ rw e (
      add_files-chosen ms (links ++ file_link m ∷ [])
      ∙ append_assoc links (file_link m ∷ [])
          (map file_link (chosen ms (links ++ file_link m ∷ []))))
]

settled_parts :
    (links : List DetectedLink) (m : FileMatch)
    → is_settled links m ≡ false
    → (is_empty m.path ≡ false) × (is_clear links (file_link m) ≡ true)
settled_parts links m h = (ground arith, ground arith)

chosen-AreClear :
    (ms : List FileMatch) (links : List DetectedLink)
    → AreClear links (map file_link (chosen ms links))
chosen-AreClear [] links = tt
chosen-AreClear (m ∷ ms) links = elim (Bool-cases (is_settled links m)) [
  | inl e ↦ rw e (chosen-AreClear ms links)
  | inr e ↦ rw e ((settled_parts links m e).1, chosen-AreClear ms (links ++ file_link m ∷ []))
]

chosen_skip :
    (m : FileMatch) (ms : List FileMatch) (links : List DetectedLink)
    → is_settled links m ≡ true
    → chosen ms links ≡ chosen (m ∷ ms) links
chosen_skip m ms links e = rw e refl

chosen_take :
    (m : FileMatch) (ms : List FileMatch) (links : List DetectedLink)
    → is_settled links m ≡ false
    → m ∷ chosen ms (links ++ file_link m ∷ []) ≡ chosen (m ∷ ms) links
chosen_take m ms links e = rw e refl

-- Every match is settled by the links and some more.
AreSettled : List DetectedLink → List FileMatch → List FileMatch → Type 0
AreSettled links ms ps = All (λ m. is_settled (links ++ map file_link ps) m ≡ true) ms

chosen-AreSettled :
    (ms : List FileMatch) (links : List DetectedLink) → AreSettled links ms (chosen ms links)
unfolding AreSettled
chosen-AreSettled [] links = tt
chosen-AreSettled (m ∷ ms) links = elim (Bool-cases (is_settled links m)) [
  | inl e ↦
      subst (AreSettled links (m ∷ ms)) (chosen_skip m ms links e)
        (settled-append links (map file_link (chosen ms links)) m e, chosen-AreSettled ms links)
  | inr e ↦
      let more = chosen ms (links ++ file_link m ∷ []) in
      subst (AreSettled links (m ∷ ms)) (chosen_take m ms links e) (
        settled_self links (map file_link more) m (settled_parts links m e).0,
        subst (λ ls. All (λ m. is_settled ls m ≡ true) ms)
            (append_assoc links (file_link m ∷ []) (map file_link more))
            (chosen-AreSettled ms (links ++ file_link m ∷ [])),
      )
]

-- The first list is the second one without some of its elements.
abbrev pub IsSelection : List FileMatch → List FileMatch → Type 0
IsSelection ps [] = ps ≡ []
IsSelection ps (m ∷ ms) =
    IsSelection ps ms ⊎ ((rest : List FileMatch) × (ps ≡ m ∷ rest) × IsSelection rest ms)

chosen-IsSelection :
    (ms : List FileMatch) (links : List DetectedLink) → IsSelection (chosen ms links) ms
chosen-IsSelection [] links = refl
chosen-IsSelection (m ∷ ms) links = elim (Bool-cases (is_settled links m)) [
  | inl e ↦ rw e (inl (chosen-IsSelection ms links))
  | inr e ↦ rw e (
      inr (
        chosen ms (links ++ file_link m ∷ []),
        refl,
        chosen-IsSelection ms (links ++ file_link m ∷ []),
      ))
]

-- Each link starts no later than those after it.
abbrev pub AreInOrder : List DetectedLink → Type 0
AreInOrder [] = Unit
AreInOrder (l ∷ ls) = All (λ (k : DetectedLink). l.start ≤ k.start) ls × AreInOrder ls

start-IsOrder : IsOrder compare_start
start-IsOrder = record { total = λ a b h. ground arith; trans = λ a b c h k. ground arith }

sorted_in_order : (ls : List DetectedLink) → IsSorted compare_start ls → AreInOrder ls
sorted_in_order [] h = tt
sorted_in_order (l ∷ ls) (h, s) = (
  All-imp (λ k. in_order compare_start l k ≡ true) (λ (k : DetectedLink). l.start ≤ k.start)
      (λ k e. ground arith) ls h,
  sorted_in_order ls s,
)

-- The links of a text are those that linkify-it finds, each once, and a selection of the matches of
-- file paths, in the order of their first positions. No file link overlaps a link of linkify-it or an
-- earlier file link, and a match with a path that is not selected overlaps one of the links.
pub detect_links_lem :
    (url_matches : List UrlMatch) (file_matches : List FileMatch)
    → (selected : List FileMatch) × IsSelection selected file_matches
      × Perm
          (detect_links url_matches file_matches)
          (map url_link url_matches ++ map file_link selected)
      × AreClear (map url_link url_matches) (map file_link selected)
      × All
          (λ m. is_settled (map url_link url_matches ++ map file_link selected) m ≡ true)
          file_matches
      × AreInOrder (detect_links url_matches file_matches)
unfolding detect_links AreSettled
detect_links_lem us fs =
    let urls = map url_link us in
    (
      chosen fs urls,
      chosen-IsSelection fs urls,
      rw⁻¹ (add_files-chosen fs urls) (sort-perm compare_start (add_files fs urls)),
      chosen-AreClear fs urls,
      chosen-AreSettled fs urls,
      sorted_in_order (sort compare_start (add_files fs urls))
          (sort-IsSorted compare_start start-IsOrder (add_files fs urls)),
    )
