-- ===== src/ReactionBar/Tests.antt =====
-- Two reactions with one emoji and one with another.
use github_idea_os_app.Base.{
  String, ◌≡◌, some, none, List, [], ◌∷◌, ◌==◌, string_eq, if◌then◌else◌, any, length, map,
  find_key, IsUnique, option_eq, nat_eq,
}
use github_idea_os_app.ReactionBar.{ReactionItem, actor_of, is_mine, group_reactions}
use github_idea_os_app.ReactionBar.Laws.{emoji_of, reactions_with, group_reactions_lem}

abbrev reaction : String → String → ReactionItem
reaction actor emoji = record { id = actor; actor_type = "member"; actor_id = actor; emoji = emoji }

abbrev reactions : List ReactionItem
reactions = reaction "u1" "+1" ∷ reaction "u2" "eyes" ∷ reaction "u2" "+1" ∷ []

group_reactions_lem_example :
    IsUnique emoji_of (group_reactions reactions (some "u2"))
    × (find_key emoji_of "+1" (group_reactions reactions (some "u2")) ≡ (
        if any (λ r. r.emoji == "+1") reactions
        then some (record {
          emoji = "+1";
          count = length (reactions_with "+1" reactions);
          reacted = any (is_mine (some "u2")) (reactions_with "+1" reactions);
          actors = map actor_of (reactions_with "+1" reactions);
        })
        else none))
group_reactions_lem_example = group_reactions_lem (some "u2") "+1" reactions
