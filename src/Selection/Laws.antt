-- ===== src/Selection/Laws.antt =====
-- The selection seen as a set: which ids it has.
use github_idea_os_app.Base.{
  String, ◌≡◌, refl, sym, ap, inl, inr, true, not, ◌&&◌, ◌||◌, List, [], ◌∷◌, arith, if◌then◌else◌,
  Bool-cases, ◌==◌, string_eq, nat_eq, option_eq, any-append, includes,
}
use github_idea_os_app.Selection.{add, delete, toggle, select, deselect}

same_id : (id j : String) (ids : List String) → (id == j) ≡ true → includes ids j ≡ includes ids id
same_id id j ids h = ap (includes ids) (sym (equal id j h))
  where
    equal : (id j : String) → (id == j) ≡ true → id ≡ j
    equal id j h = ground arith

includes-add :
    (j id : String) (ids : List String) → includes (add id ids) j ≡ ((id == j) || includes ids j)
unfolding add
includes-add j id ids = elim (Bool-cases (includes ids id)) [
  | inl e ↦ rw e (ground (arith, same_id id j ids))
  | inr e ↦ rw e (ground (arith, any-append (λ x. x == j) ids (id ∷ [])))
]

includes-delete :
    (j id : String) (ids : List String)
    → includes (delete id ids) j ≡ (not (id == j) && includes ids j)
unfolding delete
includes-delete j id [] = ground arith
includes-delete j id (x ∷ xs) = ground (arith, includes-delete j id xs)

includes-toggle :
    (j id : String) (ids : List String)
    → includes (toggle id ids) j ≡ (if id == j then not (includes ids j) else includes ids j)
unfolding toggle
includes-toggle j id ids = ground (arith, includes-add j id ids, includes-delete j id ids)

includes-select :
    (j : String) (ids selected : List String)
    → includes (select ids selected) j ≡ (includes ids j || includes selected j)
unfolding select
includes-select j [] selected = refl
includes-select j (id ∷ ids) selected =
    ground (arith, includes-select j ids (add id selected), includes-add j id selected)

includes-deselect :
    (j : String) (ids selected : List String)
    → includes (deselect ids selected) j ≡ (not (includes ids j) && includes selected j)
unfolding deselect
includes-deselect j [] selected = refl
includes-deselect j (id ∷ ids) selected =
    ground (arith, includes-deselect j ids (delete id selected), includes-delete j id selected)

-- As a set, the selection after `toggle` has the id exactly when it did not have it, and every other
-- id as before; `select` is a union and `deselect` a difference.
pub selection_lem :
    (j id : String) (ids selected : List String)
    → (includes (toggle id selected) j
        ≡ (if id == j then not (includes selected j) else includes selected j))
      × (includes (select ids selected) j ≡ (includes ids j || includes selected j))
      × (includes (deselect ids selected) j ≡ (not (includes ids j) && includes selected j))
selection_lem j id ids selected = (
  includes-toggle j id selected,
  includes-select j ids selected,
  includes-deselect j ids selected,
)
