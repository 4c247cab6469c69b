-- ===== src/WorkspaceStore/Skills.antt =====
-- The list of skills: keeping the files that a fetched list lacks, and replacing by id.
use github_idea_os_app.Base.{
  String, ◌≡◌, refl, ◌∙◌, inl, inr, true, false, ◌&&◌, Option, none, some, List, [], ◌∷◌, map,
  arith, if◌then◌else◌, Bool-cases, ◌==◌, string_eq, nat_eq, option_eq, get_or, or_else, find, has,
  IsUnique, IsUnique-concat, map_option, find_key, has-find_key, find_key-append, map-congr,
}
use github_idea_os_app.Base.Dict.{Dict, get, set, get-set}
use github_idea_os_app.Types.Agent.{Skill, SkillFile}
use github_idea_os_app.WorkspaceStore.{
  has_files, files_by_id, with_files, merge_files, replace_first, upsert,
}

-- The files that a list of skills has for an id.
abbrev pub files_of : String → List Skill → Option (List SkillFile)
files_of id existing =
    map_option (λ s. get_or s.files []) (find (λ s. s.id == id && has_files s) existing)

files_absent :
    (id : String) (existing : List Skill)
    → has (λ s. s.id) id existing ≡ false
    → files_of id existing ≡ none
files_absent id [] h = refl
files_absent id (s ∷ existing) h = ground (arith, files_absent id existing)

get-files_by_id :
    (id : String) (existing : List Skill) (m : Dict String (List SkillFile))
    → IsUnique (λ s. s.id) existing
    → get id (files_by_id existing m) ≡ or_else (files_of id existing) (get id m)
unfolding files_by_id
get-files_by_id id [] m u = refl
get-files_by_id id (s ∷ existing) m (new, u) = elim (Bool-cases (has_files s)) [
  | inl e ↦
      rw
        (
          e,
          get-files_by_id id existing (set s.id (get_or s.files []) m) u,
          get-set s.id id (get_or s.files []) m,
        )
        (ground (arith, files_absent id existing))
  | inr e ↦ rw (e, get-files_by_id id existing m u) (ground arith)
]

-- The files of a fetched skill: those that came with it, else those that the list before had for
-- its id, else none.
abbrev pub keep_files : List Skill → Skill → Skill
keep_files existing s = record s {
  files = some (get_or s.files (get_or (files_of s.id existing) []));
}

-- Refreshing gives every fetched skill the files that came with it, else those that the list before
-- had for its id, else none, and leaves the rest as fetched, provided that the skills before have
-- distinct ids.
pub merge_files_lem :
    (existing fetched : List Skill)
    → IsUnique (λ s. s.id) existing
    → merge_files existing fetched ≡ map (keep_files existing) fetched
unfolding merge_files get
merge_files_lem existing fetched u =
    map-congr (with_files (files_by_id existing [])) (keep_files existing) (λ s. same s) fetched
  where
    no_more :
        (s : Skill) (o : Option (List SkillFile))
        → ◌≡◌ {A = Skill}
            (record s { files = some (get_or s.files (get_or (or_else o none) [])) })
            (record s { files = some (get_or s.files (get_or o [])) })
    no_more s none = refl
    no_more s (some fs) = refl

    same : (s : Skill) → with_files (files_by_id existing []) s ≡ keep_files existing s
    same s = rw (get-files_by_id s.id existing [] u) (no_more s (files_of s.id existing))

find-replace_first :
    (id : String) (skill : Skill) (skills : List Skill)
    → has (λ s. s.id) skill.id skills ≡ true
    → find_key (λ s. s.id) id (replace_first skill skills)
      ≡ (if skill.id == id then some skill else find_key (λ s. s.id) id skills)
unfolding replace_first
find-replace_first id skill [] h = cc
find-replace_first id skill (s ∷ skills) h = ground (arith, find-replace_first id skill skills)

-- As a map from ids to skills, upserting sets one key.
pub find_key-upsert :
    (id : String) (skill : Skill) (skills : List Skill)
    → find_key (λ s. s.id) id (upsert skill skills)
      ≡ (if skill.id == id then some skill else find_key (λ s. s.id) id skills)
unfolding upsert
find_key-upsert id skill skills = elim (Bool-cases (has (λ s. s.id) skill.id skills)) [
  | inl e ↦ rw (upsert, e) (find-replace_first id skill skills e)
  | inr e ↦
      rw (upsert, e, find_key-append (λ s. s.id) id skills (skill ∷ []))
        (ground (arith, has-find_key (λ s. s.id) skill.id skills))
]

has-replace_first :
    (id : String) (skill : Skill) (skills : List Skill)
    → has (λ s. s.id) id (replace_first skill skills) ≡ has (λ s. s.id) id skills
unfolding replace_first
has-replace_first id skill [] = refl
has-replace_first id skill (s ∷ skills) = ground (arith, has-replace_first id skill skills)

replace_first-IsUnique :
    (skill : Skill) (skills : List Skill)
    → IsUnique (λ s. s.id) skills
    → IsUnique (λ s. s.id) (replace_first skill skills)
unfolding replace_first
replace_first-IsUnique skill [] u = tt
replace_first-IsUnique skill (s ∷ skills) (new, u) = elim (Bool-cases (s.id == skill.id)) [
  | inl e ↦ rw (replace_first, e) (ground arith, u)
  | inr e ↦
      rw (replace_first, e)
        (has-replace_first s.id skill skills ∙ new, replace_first-IsUnique skill skills u)
]

-- Upserting a skill keeps the ids of the skills distinct.
pub upsert-IsUnique :
    (skill : Skill) (skills : List Skill)
    → IsUnique (λ s. s.id) skills
    → IsUnique (λ s. s.id) (upsert skill skills)
unfolding upsert
upsert-IsUnique skill skills u = elim (Bool-cases (has (λ s. s.id) skill.id skills)) [
  | inl e ↦ rw (upsert, e) (replace_first-IsUnique skill skills u)
  | inr e ↦ rw (upsert, e) (IsUnique-concat (λ s. s.id) skills skill e u)
]
