-- ===== src/FileTree/Tests.antt =====
-- A skill with two files, one of them in a folder.
use github_idea_os_app.Base.{
  String, ◌≡◌, refl, true, false, List, [], ◌∷◌, Bool-cases, string_eq, string_discrete, nat_eq,
  option_eq, any,
}
use github_idea_os_app.Base.Text.{split_on, split_from}
use github_idea_os_app.FileTree.{
  node, nil, cons, has_name, change_named, push, join, insert_parts, insert_all, compare_nodes,
  insert_node, sort_nodes, build_tree,
}
use github_idea_os_app.FileTree.Contents.{contains, is_prefix, contains-build_tree}
use native.Mathlib.Decide.{ℕ_discrete}
use Prim.Native.String.{compare as compare_texts}

abbrev paths : List String
paths = "docs/a.md" ∷ "SKILL.md" ∷ "docs/b.md" ∷ []

tree_of_paths :
    build_tree compare_texts paths
    ≡ cons (node "SKILL.md" "SKILL.md" false nil) (
        cons
          (node "docs" "docs" true (
            cons
              (node "a.md" "docs/a.md" false nil)
              (cons (node "b.md" "docs/b.md" false nil) nil)))
          nil)
unfolding build_tree sort_nodes insert_node compare_nodes insert_all insert_parts has_name
    change_named push join split_on split_from string_discrete Bool-cases ℕ_discrete
tree_of_paths = refl

contains-build_tree_example :
    contains (build_tree compare_texts paths) ("docs" ∷ "b.md" ∷ [])
    ≡ any (λ p. is_prefix ("docs" ∷ "b.md" ∷ []) (split_on 47 p)) paths
contains-build_tree_example = contains-build_tree compare_texts paths "docs" ("b.md" ∷ [])
