-- ===== src/Timeline/Reactions.antt =====
-- Reactions that are shown before the server answers.
use github_idea_os_app.Base.{
  String, ◌≡◌, refl, sym, ap, subst, false, not, Option, none, some, List, [], ◌∷◌, ◌++◌, map,
  arith, if◌then◌else◌, ◌==◌, string_eq, nat_eq, option_eq, any, filter, All,
}
use github_idea_os_app.Base.Async.{resolved, rejected}
use github_idea_os_app.Types.Comment.{Reaction, TimelineEntry}
use github_idea_os_app.Timeline.{TimelineState, filter_reactions}
use github_idea_os_app.Timeline.Actions.{
  adding, reactions_of, push_reaction, map_entry, toggle_start, add_end,
}

-- No reaction of the timeline has the id.
abbrev pub IsFresh : String → List TimelineEntry → Type 0
IsFresh id = All (λ e. any (λ r. r.id == id) (reactions_of e) ≡ false)

-- An entry with its reactions as a list.
abbrev pub settled : TimelineEntry → TimelineEntry
settled e = record e { reactions = some (reactions_of e) }

filter_fresh :
    (id : String) (rs : List Reaction) (t : Reaction)
    → any (λ r. r.id == id) rs ≡ false
    → t.id ≡ id
    → filter (λ r. not (r.id == id)) (rs ++ t ∷ []) ≡ rs
filter_fresh id [] t h e = ground arith
filter_fresh id (r ∷ rs) t h e = ground (arith, filter_fresh id rs t)

replace_fresh :
    (id : String) (rs : List Reaction) (t q : Reaction)
    → any (λ r. r.id == id) rs ≡ false
    → t.id ≡ id
    → map (λ r. if r.id == id then q else r) (rs ++ t ∷ []) ≡ rs ++ q ∷ []
replace_fresh id [] t q h e = ground arith
replace_fresh id (r ∷ rs) t q h e = ground (arith, replace_fresh id rs t q)

module _ (comment_id : String) (temp : Reaction) where
  abbrev at : (TimelineEntry → TimelineEntry) → TimelineEntry → TimelineEntry
  at f e = if not (e.id == comment_id) then e else f e

  take_back :
      (es : List TimelineEntry)
      → IsFresh temp.id es
      → map settled (
          map
            (at (filter_reactions (λ r. not (r.id == temp.id))))
            (map (at (push_reaction temp)) es))
        ≡ map settled es
  take_back [] h = refl
  take_back (e ∷ es) (n, h) =
      ground (arith, filter_fresh temp.id (reactions_of e) temp n refl, take_back es h)

  settle :
      (q : Reaction) (es : List TimelineEntry)
      → IsFresh temp.id es
      → map
          (at (λ e. record e {
            reactions = some (map (λ r. if r.id == temp.id then q else r) (reactions_of e));
          }))
          (map (at (push_reaction temp)) es)
        ≡ map (at (push_reaction q)) es
  settle q [] h = refl
  settle q (e ∷ es) (n, h) =
      ground (arith, replace_fresh temp.id (reactions_of e) temp q n refl, settle q es h)

toggle_start_adding :
    (user_id : String) (comment_id emoji temp_id now : String) (s t : TimelineState)
    (temp : Reaction)
    → toggle_start (some user_id) comment_id emoji temp_id now s ≡ some (t, adding temp)
    → (temp.id ≡ temp_id) × (t ≡ map_entry comment_id (push_reaction temp) s)
unfolding toggle_start
toggle_start_adding user_id comment_id emoji temp_id now s t temp h = ground arith

added_lem :
    (comment_id : String) (s t : TimelineState) (temp q : Reaction)
    → IsFresh temp.id s.timeline
    → t ≡ map_entry comment_id (push_reaction temp) s
    → (map settled (add_end comment_id temp rejected t).timeline ≡ map settled s.timeline)
      × (add_end comment_id temp (resolved q) t ≡ map_entry comment_id (push_reaction q) s)
unfolding add_end
added_lem comment_id s t temp q f e = rw e (
  take_back comment_id temp s.timeline f,
  ap (λ es. record s { timeline = es }) (settle comment_id temp q s.timeline f),
)

-- A reaction that is added under a fresh temporary id and refused leaves every entry with the
-- reactions that it had; one that is accepted stands where the temporary one stood.
pub add_end-toggle_start :
    (user_id : Option String) (comment_id emoji temp_id now : String) (s t : TimelineState)
    (temp q : Reaction)
    → IsFresh temp_id s.timeline
    → toggle_start user_id comment_id emoji temp_id now s ≡ some (t, adding temp)
    → (map settled (add_end comment_id temp rejected t).timeline ≡ map settled s.timeline)
      × (add_end comment_id temp (resolved q) t ≡ map_entry comment_id (push_reaction q) s)
unfolding toggle_start
add_end-toggle_start none comment_id emoji temp_id now s t temp q f h = cc
add_end-toggle_start (some user_id) comment_id emoji temp_id now s t temp q f h =
    let (i, e) = toggle_start_adding user_id comment_id emoji temp_id now s t temp h in
    added_lem comment_id s t temp q (subst (λ z. IsFresh z s.timeline) (sym i) f) e
