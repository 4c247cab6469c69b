-- ===== src/Selection/Tests.antt =====
-- Two selected issues.
use github_idea_os_app.Base.{
  String, ◌≡◌, not, ◌&&◌, ◌||◌, [], ◌∷◌, if◌then◌else◌, ◌==◌, string_eq, nat_eq, option_eq,
  includes,
}
use github_idea_os_app.Selection.{toggle, select, deselect}
use github_idea_os_app.Selection.Laws.{selection_lem}

selection_lem_example :
    (includes {A = String} (toggle "a" ("a" ∷ "b" ∷ [])) "a" ≡ (
      if ◌==◌ {A = String} "a" "a"
      then not (includes {A = String} ("a" ∷ "b" ∷ []) "a")
      else includes {A = String} ("a" ∷ "b" ∷ []) "a"))
    × (includes {A = String} (select ("c" ∷ []) ("a" ∷ "b" ∷ [])) "a"
        ≡ (includes {A = String} ("c" ∷ []) "a" || includes {A = String} ("a" ∷ "b" ∷ []) "a"))
    × (includes {A = String} (deselect ("c" ∷ []) ("a" ∷ "b" ∷ [])) "a" ≡ (
        not (includes {A = String} ("c" ∷ []) "a") && includes {A = String} ("a" ∷ "b" ∷ []) "a"))
selection_lem_example = selection_lem "a" "a" ("c" ∷ []) ("a" ∷ "b" ∷ [])
