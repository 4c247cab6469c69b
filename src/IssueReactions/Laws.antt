-- ===== src/IssueReactions/Laws.antt =====
-- Toggling a reaction of one's own, and the events of the others.
use github_idea_os_app.Base.{
  String, ◌≡◌, refl, sym, ap, subst, ◌∙◌, inl, inr, Bool, true, false, not, ◌||◌, Option, none,
  some, List, [], ◌∷◌, ◌++◌, arith, if◌then◌else◌, Bool-cases, Option-cases, ◌==◌, string_eq,
  nat_eq, option_eq, is_nonempty, any, filter, find, any-append, has, IsUnique,
}
use github_idea_os_app.Base.Async.{rejected}
use github_idea_os_app.Types.Issue.{IssueReaction}
use github_idea_os_app.IssueReactions.{
  ReactionsState, is_mine, on_added, Toggle, adding, removing, toggle_start, add_end, remove_end,
}

-- The end of a toggle, refused by the server.
abbrev pub refused : Option Toggle → ReactionsState → ReactionsState
refused none s = s
refused (some (removing existing)) s = remove_end existing rejected s
refused (some (adding temp)) s = add_end temp rejected s

-- The reaction that is found is one of the list.
some-injective : {a b : IssueReaction} → some a ≡ some b → a ≡ b
some-injective e = cc

found :
    (p f : IssueReaction → Bool) (existing : IssueReaction) (rs : List IssueReaction)
    → find f rs ≡ some existing
    → (has (λ r. r.id) existing.id rs ≡ true) × ((p existing || any p rs) ≡ any p rs)
found p f existing [] h = cc
found p f existing (r ∷ rs) h = elim (Bool-cases (f r)) [
  | inl e ↦ is_head r (some-injective (sym (chosen e) ∙ h))
  | inr e ↦ let (i, m) = found p f existing rs (sym (passed e) ∙ h) in (ground arith, ground arith)
]
  where
    chosen : f r ≡ true → (if f r then some r else find f rs) ≡ some r
    chosen e = rw e refl

    passed : f r ≡ false → (if f r then some r else find f rs) ≡ find f rs
    passed e = rw e refl

    is_head :
        (r : IssueReaction)
        → r ≡ existing
        → (has (λ r. r.id) existing.id (r ∷ rs) ≡ true)
          × ((p existing || any p (r ∷ rs)) ≡ any p (r ∷ rs))
    is_head r e = rw e (ground arith, ground arith)

others_kept :
    (id : String) (rs : List IssueReaction)
    → has (λ r. r.id) id rs ≡ false
    → filter (λ r. not (r.id == id)) rs ≡ rs
others_kept id [] h = refl
others_kept id (r ∷ rs) h = ground (arith, others_kept id rs)

differ :
    (a b : String) (rs : List IssueReaction)
    → has (λ r. r.id) b rs ≡ true
    → has (λ r. r.id) a rs ≡ false
    → (a == b) ≡ false
differ a b rs i new = ground arith

put_back :
    (p f : IssueReaction → Bool) (existing : IssueReaction) (rs : List IssueReaction)
    → IsUnique (λ r. r.id) rs
    → find f rs ≡ some existing
    → (any p (filter (λ r. not (r.id == existing.id)) rs) || p existing) ≡ any p rs
put_back p f existing [] u h = cc
put_back p f existing (r ∷ rs) (new, u) h = elim (Bool-cases (f r)) [
  | inl e ↦ is_head r new (some-injective (sym (chosen e) ∙ h))
  | inr e ↦
      let k = sym (passed e) ∙ h in
      let (i, m) = found p f existing rs k in
      rw (differ r.id existing.id rs i new) (ground (arith, put_back p f existing rs u k))
]
  where
    chosen : f r ≡ true → (if f r then some r else find f rs) ≡ some r
    chosen e = rw e refl

    passed : f r ≡ false → (if f r then some r else find f rs) ≡ find f rs
    passed e = rw e refl

    is_head :
        (r : IssueReaction)
        → has (λ q. q.id) r.id rs ≡ false
        → r ≡ existing
        → (any p (filter (λ q. not (q.id == existing.id)) (r ∷ rs)) || p existing) ≡ any p (r ∷ rs)
    is_head r new e =
        subst (λ x. (any p (filter (λ q. not (q.id == x.id)) (r ∷ rs)) || p x) ≡ any p (r ∷ rs)) e
          (ground (arith, others_kept r.id rs new))

without_temp :
    (temp : IssueReaction) (rs : List IssueReaction)
    → has (λ r. r.id) temp.id rs ≡ false
    → filter (λ r. not (r.id == temp.id)) (rs ++ temp ∷ []) ≡ rs
without_temp temp [] h = ground arith
without_temp temp (r ∷ rs) h = ground (arith, without_temp temp rs)

-- A toggle that the server refuses leaves the reactions that are shown as they were, whichever way
-- it went: what some reaction satisfied before, some reaction satisfies after it, and conversely. The
-- reactions have distinct ids, and none has the temporary one.
pub refused-toggle_start :
    (issue_id user_id emoji temp_id now : String) (s : ReactionsState) (p : IssueReaction → Bool)
    → IsUnique (λ r. r.id) s.reactions
    → has (λ r. r.id) temp_id s.reactions ≡ false
    → let started = toggle_start issue_id (some user_id) emoji temp_id now s in
      any p (refused started.1 started.0).reactions ≡ any p s.reactions
unfolding toggle_start add_end remove_end
refused-toggle_start issue_id user_id emoji temp_id now s p u fresh =
    elim (Bool-cases (is_nonempty user_id)) [
      | inl e ↦ elim (Option-cases (find (is_mine user_id emoji) s.reactions)) [
        | inl f ↦ rw (e, f) (ap (any p) (without_temp _ s.reactions fresh))
        | inr (existing, f) ↦
            rw (e, f)
              (any-append p (filter (λ r. not (r.id == existing.id)) s.reactions) (existing ∷ [])
                ∙ ground (arith, put_back p (is_mine user_id emoji) existing s.reactions u f))
      ]
      | inr e ↦ rw e refl
    ]

readd :
    (r : IssueReaction) (rs : List IssueReaction) → any (λ q. q.id == r.id) (rs ++ r ∷ []) ≡ true
readd r [] = ground arith
readd r (q ∷ rs) = ground (arith, readd r rs)

-- A second delivery of an added reaction changes nothing.
on_added_idem :
    (issue_id : String) (user_id : Option String) (p_issue_id : String) (reaction : IssueReaction)
    (s : ReactionsState)
    → on_added issue_id user_id p_issue_id reaction
        (on_added issue_id user_id p_issue_id reaction s)
      ≡ on_added issue_id user_id p_issue_id reaction s
unfolding on_added
on_added_idem issue_id user_id p_issue_id reaction s = ground (arith, readd reaction s.reactions)
