-- ===== src/FileTree.antt =====
-- apps/web/features/skills/components/file-tree.tsx: the tree of a skill's files. `compare_texts` stands
-- for `localeCompare`.
pub mod Contents
mod Tests
use github_idea_os_app.Base.{
  ℕ, zero, suc, ◌+◌, ◌-◌, ◌*◌, ◌/◌, ◌%◌, ◌≤◌, ◌<◌, Ordering, compare, String, ◌≡◌, refl, sym, ap,
  subst, ◌∙◌, ◌≢◌, ◌↔◌, ◌⊎◌, inl, inr, Bool, true, false, not, ◌&&◌, ◌||◌, Option, none, some, List,
  [], ◌∷◌, ◌++◌, map, arith, if◌then◌else◌, Bool-cases, if_lem, Option-cases, Eq, ◌==◌, string_eq,
  string_discrete, nat_eq, option_eq, ltb, leb, get_or, or_else, is_some, is_nonempty, is_truthy,
  length, any, filter, find, head?, is_empty, All, length-append, length-filter-le, any-append,
  any-filter, filter-append, includes, has, IsUnique, IsUnique-concat, IsUnique-filter, has-map,
  IsUnique-map, map_option, find_key, remove_key, map_key, add_new, has-find_key, find_key-append,
  find_key-remove_key, any-eq_true, All-append, All-filter, All-of_forall, All-imp, All-filter-map,
  eq_nil_of_All, map-congr, map-map, All-zip, All-of_none, All-filter_self, any_of_All, All-mem,
  Mem, Perm, find_key-map_key, find_key-add_new, IsUnique-add_new, IsUnique-map_key,
}
use github_idea_os_app.Base.Text.{split_on}
use Prim.Native.String.{◌++◌ as text_append}

mutual
  -- A `FileTreeNode`: name, path, isDirectory and children.
  pub data Node : Type 0 where
    node : String → String → Bool → Nodes → Node

  pub data Nodes : Type 0 where
    nil : Nodes
    cons : Node → Nodes → Nodes

abbrev pub name_of : Node → String
name_of (node name path is_directory children) = name

abbrev pub path_of : Node → String
path_of (node name path is_directory children) = path

abbrev pub is_directory_of : Node → Bool
is_directory_of (node name path is_directory children) = is_directory

-- `current.find((n) => n.name === name)`: whether there is one.
unfoldable pub has_name : String → Nodes → Bool
has_name name nil = false
has_name name (cons n ns) = name_of n == name || has_name name ns

-- The children of the first node with a name are changed in place.
abbrev pub with_children : (Nodes → Nodes) → Node → Node
with_children f (node name path is_directory children) = node name path is_directory (f children)

unfoldable pub change_named : String → (Nodes → Nodes) → Nodes → Nodes
change_named name f nil = nil
change_named name f (cons n ns) =
    let rest = change_named name f ns in
    if name_of n == name then cons (with_children f n) ns else cons n rest

-- `current.push(n)`
unfoldable pub push : Node → Nodes → Nodes
push n nil = cons n nil
push n (cons m ns) = cons m (push n ns)

-- `parts.join("/")`
unfoldable pub join : List String → String
join [] = ""
join (part ∷ []) = part
join (part ∷ next ∷ rest) = text_append part (text_append "/" (join (next ∷ rest)))

-- The inner loop of `buildTree`, after the parts `before`.
unfoldable pub insert_parts : List String → List String → Nodes → Nodes
insert_parts before [] current = current
insert_parts before (name ∷ rest) current =
    let below = insert_parts (before ++ name ∷ []) rest in
    if has_name name current
    then change_named name below current
    else push (node name (join (before ++ name ∷ [])) (not (is_empty rest)) (below nil)) current

unfoldable pub insert_all : List String → Nodes → Nodes
insert_all [] root = root
insert_all (file_path ∷ file_paths) root =
    insert_all file_paths (insert_parts [] (split_on 47 file_path) root)

module _ (compare_texts : String → String → Ordering) where
  unfoldable pub compare_nodes : Node → Node → Ordering
  compare_nodes a b =
      if path_of a == "SKILL.md"
      then Ordering.lt
      else if path_of b == "SKILL.md"
      then Ordering.gt
      else if is_directory_of a && not (is_directory_of b)
      then Ordering.lt
      else if is_directory_of b && not (is_directory_of a)
      then Ordering.gt
      else compare_texts (name_of a) (name_of b)

  unfoldable pub insert_node : Node → Nodes → Nodes
  insert_node n nil = cons n nil
  insert_node n (cons m ns) =
      let rest = insert_node n ns in
      elim (compare_nodes n m) [ Ordering.gt ↦ cons m rest | _ ↦ cons n (cons m ns) ]

  -- `sortNodes`: the order of siblings does not depend on what is below them.
  unfoldable mutual
    unfolding insert_node

    pub sort_node : Node → Node
    sort_node (node name path is_directory children) =
        let below = sort_nodes children in
        node name path is_directory (if is_directory then below else children)

    pub sort_nodes : Nodes → Nodes
    sort_nodes nil = nil
    sort_nodes (cons n ns) = insert_node (sort_node n) (sort_nodes ns)

  unfoldable pub build_tree : List String → Nodes
  build_tree file_paths = sort_nodes (insert_all file_paths nil)
