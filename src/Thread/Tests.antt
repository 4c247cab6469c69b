-- ===== src/Thread/Tests.antt =====
-- The comments of a thread, deleted.
use github_idea_os_app.Base.{◌≡◌, ◌↔◌, true, some, [], ◌∷◌, string_eq, nat_eq, option_eq, includes}
use github_idea_os_app.Samples.{a_thread}
use github_idea_os_app.Thread.{collect, ids_to_remove}
use github_idea_os_app.Thread.Descendants.{Descends, ids_to_remove_iff}

ids_to_remove_iff_example :
    (collect 5 a_thread ("c1" ∷ []) ≡ some (ids_to_remove a_thread "c1"))
    × ((includes (ids_to_remove a_thread "c1") "c3" ≡ true) ↔ Descends a_thread "c1" "c3")
ids_to_remove_iff_example = ids_to_remove_iff a_thread "c1" "c3"
