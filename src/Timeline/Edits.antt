-- ===== src/Timeline/Edits.antt =====
-- What a refused edit or deletion restores.
use github_idea_os_app.Base.{
  String, ◌≡◌, refl, subst, false, not, Option, none, some, List, [], ◌∷◌, map, arith,
  if◌then◌else◌, ◌==◌, string_eq, string_discrete, nat_eq, option_eq, has, Perm, All, ◌++◌,
}
use github_idea_os_app.Base.Async.{rejected}
use github_idea_os_app.Types.Comment.{TimelineEntry}
use github_idea_os_app.Thread.{without_thread, removed_entries}
use github_idea_os_app.Thread.Descendants.{Descends}
use github_idea_os_app.Thread.Removal.{
  without_thread-append-removed_entries, without_thread-Descends,
}
use github_idea_os_app.Timeline.{TimelineState}
use github_idea_os_app.Timeline.Actions.{
  last_content, edit_start, edit_end, delete_start, delete_end,
}
use github_idea_os_app.Timeline.Events.{HasUniqueIds}

-- An entry without its time of change.
abbrev pub undated : TimelineEntry → TimelineEntry
undated e = record e { updated_at = none }

abbrev edited : String → String → String → TimelineEntry → TimelineEntry
edited id content now e =
    if not (e.id == id) then e else record e { content = some content; updated_at = some now }

abbrev restored : String → String → TimelineEntry → TimelineEntry
restored id content e = if e.id == id then record e { content = some content } else e

last_content_absent :
    (id : String) (es : List TimelineEntry) (found : Option String)
    → has (λ (e : TimelineEntry). e.id) id es ≡ false
    → last_content id es found ≡ found
unfolding last_content
last_content_absent id [] found h = refl
last_content_absent id (e ∷ es) found h = ground (arith, last_content_absent id es found)

restore_absent :
    (id old content now : String) (es : List TimelineEntry)
    → has (λ (e : TimelineEntry). e.id) id es ≡ false
    → map undated (map (restored id old) (map (edited id content now) es)) ≡ map undated es
restore_absent id old content now [] h = refl
restore_absent id old content now (e ∷ es) h = ground (arith, restore_absent id old content now es)

restore_all :
    (id old content now : String) (es : List TimelineEntry)
    → HasUniqueIds es
    → last_content id es none ≡ some old
    → map undated (map (restored id old) (map (edited id content now) es)) ≡ map undated es
unfolding last_content
restore_all id old content now [] u h = cc
restore_all id old content now (e ∷ es) (new, u) h = elim (string_discrete e.id id) [
  | yes p ↦
      let none_left : has (λ (d : TimelineEntry). d.id) id es ≡ false =
        subst (λ z. has (λ (d : TimelineEntry). d.id) z es ≡ false) p new in
      ground (
        arith,
        last_content_absent id es e.content none_left,
        restore_absent id old content now es none_left,
      )
  | no p ↦ ground (arith, restore_all id old content now es u)
]

-- An edit that the server refuses is taken back: if the entries have distinct ids and the edited one
-- had the content `old`, every entry is as before the edit, except for its time of change.
pub edit_end-edit_start :
    (comment_id content now old : String) (s : TimelineState)
    → HasUniqueIds s.timeline
    → (edit_start comment_id content now s).1 ≡ some old
    → map undated
        (edit_end comment_id
          (edit_start comment_id content now s).1
          rejected
          (edit_start comment_id content now s).0).timeline
      ≡ map undated s.timeline
unfolding edit_start edit_end
edit_end-edit_start comment_id content now old s u h =
    rw (h, edit_end) (restore_all comment_id old content now s.timeline u h)

-- A deletion that the server refuses is taken back: the timeline holds the same entries as before,
-- each as often. First come those that are neither the comment nor a reply below it, then the comment
-- and every reply below it.
pub delete_end-delete_start :
    (comment_id : String) (s : TimelineState)
    → (kept : List TimelineEntry) × (removed : List TimelineEntry) × ((delete_end
          (delete_start comment_id s).1
          rejected
          (delete_start comment_id s).0).timeline
        ≡ kept ++ removed)
      × All (λ e. ¬ Descends s.timeline comment_id e.id) kept
      × All (λ e. Descends s.timeline comment_id e.id) removed
      × Perm (kept ++ removed) s.timeline
unfolding delete_start delete_end
delete_end-delete_start comment_id s = (
  without_thread s.timeline comment_id,
  removed_entries s.timeline comment_id,
  refl,
  (without_thread-Descends s.timeline comment_id).0,
  (without_thread-Descends s.timeline comment_id).1,
  without_thread-append-removed_entries s.timeline comment_id,
)
