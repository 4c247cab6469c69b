-- ===== src/Timeline/Events.antt =====
-- Events that come twice, and the entries' ids.
use github_idea_os_app.Base.{
  String, ◌≡◌, refl, ◌∙◌, Bool, true, false, not, ◌&&◌, Option, none, some, List, [], ◌∷◌, map,
  arith, if◌then◌else◌, ◌==◌, string_eq, nat_eq, option_eq, get_or, is_nonempty, filter, any-append,
  includes, IsUnique, IsUnique-filter, IsUnique-map, map-congr, map-map, IsUnique-add_new,
}
use github_idea_os_app.Types.Comment.{Comment, Reaction, TimelineEntry}
use github_idea_os_app.Thread.{without_thread, ids_to_remove}
use github_idea_os_app.Thread.Removal.{without_thread_idem}
use github_idea_os_app.Timeline.{
  Event, comment_created, comment_updated, comment_deleted, activity_created, reaction_added,
  reaction_removed, comment_to_timeline_entry, append_entry, add_reaction, filter_reactions, is_own,
  handle, author_text,
}

append_entry_idem :
    (e : TimelineEntry) (prev : List TimelineEntry)
    → append_entry e (append_entry e prev) ≡ append_entry e prev
unfolding append_entry
append_entry_idem e prev =
    ground (arith, any-append (λ (d : TimelineEntry). d.id == e.id) prev (e ∷ []))

map_idem :
    (f : TimelineEntry → TimelineEntry)
    → ((e : TimelineEntry) → f (f e) ≡ f e)
    → (xs : List TimelineEntry) → map f (map f xs) ≡ map f xs
map_idem f h xs = map-map f f xs ∙ map-congr (λ e. f (f e)) f h xs

filter_idem {ℓ} : {A : Type ℓ} (p : A → Bool) (xs : List A) → filter p (filter p xs) ≡ filter p xs
filter_idem p [] = refl
filter_idem p (x ∷ xs) = ground (arith, filter_idem p xs)

abbrev update_entry : Comment → TimelineEntry → TimelineEntry
update_entry c e = if e.id == c.id then comment_to_timeline_entry c else e

abbrev react : Reaction → TimelineEntry → TimelineEntry
react r e = if not (e.id == r.comment_id) then e else add_reaction r e

abbrev unreact : String → (Reaction → Bool) → TimelineEntry → TimelineEntry
unreact k keep e = if not (e.id == k) then e else filter_reactions keep e

update_entry_idem :
    (c : Comment) (e : TimelineEntry) → update_entry c (update_entry c e) ≡ update_entry c e
unfolding comment_to_timeline_entry
update_entry_idem c e = ground arith

react_idem : (r : Reaction) (e : TimelineEntry) → react r (react r e) ≡ react r e
react_idem r e =
    ground (arith, any-append (λ (x : Reaction). x.id == r.id) (get_or e.reactions []) (r ∷ []))

unreact_idem :
    (k : String) (keep : Reaction → Bool) (e : TimelineEntry)
    → unreact k keep (unreact k keep e) ≡ unreact k keep e
unreact_idem k keep e = ground (arith, filter_idem keep (get_or e.reactions []))

-- Handling an event a second time changes nothing.
pub handle_idem :
    (issue_id : String) (user_id : Option String) (ev : Event) (prev : List TimelineEntry)
    → handle issue_id user_id ev (handle issue_id user_id ev prev) ≡ handle issue_id user_id ev prev
unfolding handle
handle_idem issue_id user_id (comment_created c) prev =
    ground (arith, append_entry_idem (comment_to_timeline_entry c) prev)
handle_idem issue_id user_id (comment_updated c) prev =
    ground (arith, map_idem (update_entry c) (update_entry_idem c) prev)
handle_idem issue_id user_id (comment_deleted k i) prev = ground (arith, without_thread_idem prev k)
handle_idem issue_id user_id (activity_created i none) prev = refl
handle_idem issue_id user_id (activity_created i (some e)) prev =
    ground (arith, append_entry_idem e prev)
handle_idem issue_id user_id (reaction_added r i) prev =
    ground (arith, map_idem (react r) (react_idem r) prev)
handle_idem issue_id user_id (reaction_removed k i emoji t a) prev =
    let keep : Reaction → Bool =
      λ r. not (r.emoji == emoji && r.actor_type == t && r.actor_id == a) in
    ground (arith, map_idem (unreact k keep) (unreact_idem k keep) prev)

abbrev pub HasUniqueIds : List TimelineEntry → Type 0
HasUniqueIds = IsUnique (λ (e : TimelineEntry). e.id)

append_entry-HasUniqueIds :
    (e : TimelineEntry) (prev : List TimelineEntry)
    → HasUniqueIds prev
    → HasUniqueIds (append_entry e prev)
unfolding append_entry
append_entry-HasUniqueIds e prev u = IsUnique-add_new (λ (d : TimelineEntry). d.id) e prev u

update_entry-id : (c : Comment) (e : TimelineEntry) → (update_entry c e).id ≡ e.id
unfolding comment_to_timeline_entry
update_entry-id c e = ground arith

react-id : (r : Reaction) (e : TimelineEntry) → (react r e).id ≡ e.id
react-id r e = ground arith

unreact-id :
    (k : String) (keep : Reaction → Bool) (e : TimelineEntry) → (unreact k keep e).id ≡ e.id
unreact-id k keep e = ground arith

-- A change under two guards.
guarded-HasUniqueIds :
    (a b : Bool) (xs ys : List TimelineEntry)
    → HasUniqueIds xs
    → HasUniqueIds ys
    → HasUniqueIds (if a then xs else if b then xs else ys)
guarded-HasUniqueIds true b xs ys u v = u
guarded-HasUniqueIds false true xs ys u v = u
guarded-HasUniqueIds false false xs ys u v = v

tested-HasUniqueIds :
    (a : Bool) (xs ys : List TimelineEntry)
    → HasUniqueIds xs
    → HasUniqueIds ys
    → HasUniqueIds (if a then xs else ys)
tested-HasUniqueIds true xs ys u v = u
tested-HasUniqueIds false xs ys u v = v

handle-HasUniqueIds :
    (issue_id : String) (user_id : Option String) (ev : Event) (prev : List TimelineEntry)
    → HasUniqueIds prev
    → HasUniqueIds (handle issue_id user_id ev prev)
unfolding handle
handle-HasUniqueIds issue_id user_id (comment_created c) prev u =
    let entry = comment_to_timeline_entry c in
    guarded-HasUniqueIds (not (c.issue_id == issue_id))
      (is_own user_id (author_text c.author_type) c.author_id) prev (append_entry entry prev) u
      (append_entry-HasUniqueIds entry prev u)
handle-HasUniqueIds issue_id user_id (comment_updated c) prev u =
    tested-HasUniqueIds (c.issue_id == issue_id) (map (update_entry c) prev) prev
      (IsUnique-map (λ (e : TimelineEntry). e.id) (update_entry c) (update_entry-id c) prev u) u
handle-HasUniqueIds issue_id user_id (comment_deleted k i) prev u =
    tested-HasUniqueIds (i == issue_id) (without_thread prev k) prev
      (IsUnique-filter (λ (e : TimelineEntry). e.id)
        (λ e. not (includes (ids_to_remove prev k) e.id)) prev u)
      u
handle-HasUniqueIds issue_id user_id (activity_created i none) prev u = u
handle-HasUniqueIds issue_id user_id (activity_created i (some e)) prev u =
    guarded-HasUniqueIds (not (i == issue_id)) (not (is_nonempty e.id)) prev (append_entry e prev) u
      (append_entry-HasUniqueIds e prev u)
handle-HasUniqueIds issue_id user_id (reaction_added r i) prev u =
    guarded-HasUniqueIds (not (i == issue_id)) (is_own user_id r.actor_type r.actor_id) prev
      (map (react r) prev) u
      (IsUnique-map (λ (e : TimelineEntry). e.id) (react r) (react-id r) prev u)
handle-HasUniqueIds issue_id user_id (reaction_removed k i emoji t a) prev u =
    let keep : Reaction → Bool =
      λ r. not (r.emoji == emoji && r.actor_type == t && r.actor_id == a) in
    guarded-HasUniqueIds (not (i == issue_id)) (is_own user_id t a) prev (map (unreact k keep) prev)
      u (IsUnique-map (λ (e : TimelineEntry). e.id) (unreact k keep) (unreact-id k keep) prev u)

unfoldable pub handle_all :
    String → Option String → List Event → List TimelineEntry → List TimelineEntry
handle_all issue_id user_id [] prev = prev
handle_all issue_id user_id (ev ∷ evs) prev =
    handle_all issue_id user_id evs (handle issue_id user_id ev prev)

-- No sequence of events ever puts two entries with one id into a timeline that has none.
pub handle_all-HasUniqueIds :
    (issue_id : String) (user_id : Option String) (evs : List Event) (prev : List TimelineEntry)
    → HasUniqueIds prev
    → HasUniqueIds (handle_all issue_id user_id evs prev)
unfolding handle_all
handle_all-HasUniqueIds issue_id user_id [] prev u = u
handle_all-HasUniqueIds issue_id user_id (ev ∷ evs) prev u =
    handle_all-HasUniqueIds issue_id user_id evs (handle issue_id user_id ev prev)
      (handle-HasUniqueIds issue_id user_id ev prev u)
