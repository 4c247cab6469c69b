-- ===== src/Linkify/Tests.antt =====
-- The text "a b.c ./d" with the address `b.c` and the path `./d`.
use github_idea_os_app.Base.{
  ◌≡◌, refl, true, false, List, [], ◌∷◌, ◌++◌, map, arith, string_eq, nat_eq, option_eq, All, Perm,
  filter,
}
use github_idea_os_app.Base.Sort.{sort, insert}
use github_idea_os_app.Linkify.{
  Units, DetectedLink, UrlMatch, FileMatch, url, file, url_link, file_link, detect_links,
  preprocess_links, ranges_overlap, add_files, path_start, index_of, is_prefix,
}
use github_idea_os_app.Linkify.Ranges.{
  IsSelection, AreClear, AreInOrder, is_settled, detect_links_lem,
}
use github_idea_os_app.Linkify.Convert.{
  Piece, source, render, concat, converted, is_free, preprocess_links_lem,
}
use native.Mathlib.Decide.{ℕ_discrete}

abbrev content : Units
content = 97 ∷ 32 ∷ 98 ∷ 46 ∷ 99 ∷ 32 ∷ 46 ∷ 47 ∷ 100 ∷ []

abbrev url_matches : List UrlMatch
url_matches =
    record {
      is_mailto = false;
      text = 98 ∷ 46 ∷ 99 ∷ [];
      url = 104 ∷ 58 ∷ 98 ∷ 46 ∷ 99 ∷ [];
      index = 2;
      last_index = 5;
    }
    ∷ []

abbrev file_matches : List FileMatch
file_matches =
    record { index = 5; full_match = 32 ∷ 46 ∷ 47 ∷ 100 ∷ []; path = 46 ∷ 47 ∷ 100 ∷ [] } ∷ []

abbrev links : List DetectedLink
links =
    record {
      type = url;
      text = 98 ∷ 46 ∷ 99 ∷ [];
      target = 104 ∷ 58 ∷ 98 ∷ 46 ∷ 99 ∷ [];
      start = 2;
      stop = 5;
    }
    ∷ record {
      type = file;
      text = 46 ∷ 47 ∷ 100 ∷ [];
      target = 46 ∷ 47 ∷ 100 ∷ [];
      start = 6;
      stop = 9;
    }
    ∷ []

links_found : detect_links url_matches file_matches ≡ links
unfolding detect_links sort insert add_files path_start index_of is_prefix ranges_overlap ℕ_discrete
links_found = refl

detect_links_lem_example :
    (selected : List FileMatch) × IsSelection selected file_matches
    × Perm
        (detect_links url_matches file_matches)
        (map url_link url_matches ++ map file_link selected)
    × AreClear (map url_link url_matches) (map file_link selected)
    × All
        (λ m. is_settled (map url_link url_matches ++ map file_link selected) m ≡ true)
        file_matches
    × AreInOrder (detect_links url_matches file_matches)
detect_links_lem_example = detect_links_lem url_matches file_matches

preprocess_links_lem_example :
    (ps : List Piece) × (concat (source content) ps ≡ content)
    × (preprocess_links true content [] links ≡ concat render ps)
    × (converted ps ≡ filter (is_free content []) links)
preprocess_links_lem_example =
    preprocess_links_lem content [] links (omega arith, omega arith, (omega arith, omega arith, tt))
