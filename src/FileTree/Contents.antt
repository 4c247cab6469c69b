-- ===== src/FileTree/Contents.antt =====
-- Which paths a tree has.
use github_idea_os_app.Base.{
  Ordering, String, ◌≡◌, refl, ◌∙◌, inl, inr, Bool, true, false, ◌&&◌, ◌||◌, List, [], ◌∷◌, ◌++◌,
  arith, Bool-cases, ◌==◌, string_eq, nat_eq, option_eq, any, is_empty, has,
}
use github_idea_os_app.Base.Text.{split_on}
use github_idea_os_app.FileTree.{
  Node, Nodes, node, nil, cons, has_name, change_named, push, insert_parts, insert_all, insert_node,
  sort_node, sort_nodes, build_tree,
}

-- The parts lead from sibling to child through nodes of these names.
unfoldable mutual
  pub contains : Nodes → List String → Bool
  contains nil parts = is_empty parts
  contains (cons n ns) parts = leads n parts || contains ns parts

  pub leads : Node → List String → Bool
  leads (node name path is_directory children) [] = true
  leads (node name path is_directory children) (part ∷ parts) =
      name == part && contains children parts

unfoldable pub is_prefix : List String → List String → Bool
is_prefix [] ys = true
is_prefix (x ∷ xs) [] = false
is_prefix (x ∷ xs) (y ∷ ys) = y == x && is_prefix xs ys

contains-nil : (ns : Nodes) → contains ns [] ≡ true
unfolding contains
contains-nil nil = refl
contains-nil (cons (node name path d children) ns) = refl

contains-push :
    (n : Node) (ns : Nodes) (q : String) (qs : List String)
    → contains (push n ns) (q ∷ qs) ≡ (leads n (q ∷ qs) || contains ns (q ∷ qs))
unfolding push contains
contains-push n nil q qs = refl
contains-push n (cons m ns) q qs = ground (arith, contains-push n ns q qs)

-- What a change of children adds is added to the paths through the changed node.
contains-change_named :
    (name : String) (f : Nodes → Nodes) (ns : Nodes) (q : String) (qs : List String) (added : Bool)
    → ((cs : Nodes) → contains (f cs) qs ≡ (added || contains cs qs))
    → has_name name ns ≡ true
    → contains (change_named name f ns) (q ∷ qs) ≡ ((name == q && added) || contains ns (q ∷ qs))
unfolding change_named contains has_name
contains-change_named name f nil q qs added h has = cc
contains-change_named name f (cons (node m path d cs) ns) q qs added h has =
    ground (arith, h cs, contains-change_named name f ns q qs added h)

new_child : (qs ps : List String) → (is_prefix qs ps || contains nil qs) ≡ is_prefix qs ps
unfolding is_prefix contains
new_child [] ps = refl
new_child (q ∷ qs) ps = ground arith

contains-insert_parts :
    (before ps : List String) (ns : Nodes) (qs : List String)
    → contains (insert_parts before ps ns) qs ≡ (is_prefix qs ps || contains ns qs)
unfolding insert_parts is_prefix contains
contains-insert_parts before ps ns [] = contains-nil (insert_parts before ps ns)
contains-insert_parts before [] ns (q ∷ qs) = refl
contains-insert_parts before (name ∷ rest) ns (q ∷ qs) = elim (Bool-cases (has_name name ns)) [
  | inl e ↦ simp e (
      contains-change_named name (insert_parts (before ++ name ∷ []) rest) ns q qs
        (is_prefix qs rest) (λ cs. contains-insert_parts (before ++ name ∷ []) rest cs qs) e)
  | inr e ↦
      simp
        (
          e,
          contains-push,
          contains-insert_parts (before ++ name ∷ []) rest nil qs,
          new_child qs rest,
        )
        refl
]

contains-insert_all :
    (paths : List String) (ns : Nodes) (qs : List String)
    → contains (insert_all paths ns) qs
      ≡ (any (λ p. is_prefix qs (split_on 47 p)) paths || contains ns qs)
unfolding insert_all
contains-insert_all [] ns qs = refl
contains-insert_all (p ∷ ps) ns qs = ground (
  arith,
  contains-insert_all ps (insert_parts [] (split_on 47 p) ns) qs,
  contains-insert_parts [] (split_on 47 p) ns qs,
)

module _ (compare_texts : String → String → Ordering) where
  contains-insert_node :
      (n : Node) (ns : Nodes) (qs : List String)
      → contains (insert_node compare_texts n ns) qs ≡ (leads n qs || contains ns qs)
  unfolding insert_node contains
  contains-insert_node n nil qs = refl
  contains-insert_node n (cons m ns) qs = ground (arith, contains-insert_node n ns qs)

  mutual
    unfolding sort_node contains

    leads-sort_node :
        (n : Node) (qs : List String) → leads (sort_node compare_texts n) qs ≡ leads n qs
    leads-sort_node (node name path d children) [] = refl
    leads-sort_node (node name path d children) (q ∷ qs) =
        ground (arith, contains-sort_nodes children qs)

    contains-sort_nodes :
        (ns : Nodes) (qs : List String) → contains (sort_nodes compare_texts ns) qs ≡ contains ns qs
    contains-sort_nodes nil qs = refl
    contains-sort_nodes (cons n ns) qs =
        contains-insert_node (sort_node compare_texts n) (sort_nodes compare_texts ns) qs
        ∙ ground (arith, leads-sort_node n qs, contains-sort_nodes ns qs)

  -- The tree of a list of paths has a node at exactly the prefixes of these paths, taken apart at the
  -- slashes: every file and every folder above it, and nothing else, in whatever order the nodes stand.
  pub contains-build_tree :
      (paths : List String) (q : String) (qs : List String)
      → contains (build_tree compare_texts paths) (q ∷ qs)
        ≡ any (λ p. is_prefix (q ∷ qs) (split_on 47 p)) paths
  unfolding build_tree contains
  contains-build_tree paths q qs =
      contains-sort_nodes (insert_all paths nil) (q ∷ qs)
      ∙ contains-insert_all paths nil (q ∷ qs)
      ∙ ground arith
