-- ===== src/ReactionBar.antt =====
-- apps/web/components/common/reaction-bar.tsx: groupReactions, with the map of its loop.
pub mod Laws
mod Tests
use github_idea_os_app.Base.{
  ℕ, suc, String, Bool, true, false, Option, some, List, [], ◌∷◌, ◌++◌, map, ◌==◌, ◌&&◌,
  if◌then◌else◌, string_eq, option_eq, get_or,
}
use github_idea_os_app.Base.Dict.{Dict, get, set}

pub record ReactionItem : Type 0 where
  pub id : String
  pub actor_type : String
  pub actor_id : String
  pub emoji : String

pub record Actor : Type 0 where
  pub type : String
  pub id : String

pub record GroupedReaction : Type 0 where
  pub emoji : String
  pub count : ℕ
  pub reacted : Bool
  pub actors : List Actor

abbrev pub new_group : String → GroupedReaction
new_group emoji = record { emoji = emoji; count = 0; reacted = false; actors = [] }

abbrev pub actor_of : ReactionItem → Actor
actor_of r = record { type = r.actor_type; id = r.actor_id }

-- The reaction is that of the current user.
abbrev pub is_mine : Option String → ReactionItem → Bool
is_mine current_user_id r = r.actor_type == "member" && some r.actor_id == current_user_id

abbrev pub add_to_group : Option String → ReactionItem → GroupedReaction → GroupedReaction
add_to_group current_user_id r g = record g {
  count = suc g.count;
  actors = g.actors ++ actor_of r ∷ [];
  reacted = if is_mine current_user_id r then true else g.reacted;
}

-- The loop of `groupReactions`.
unfoldable pub group_all :
    Option String → List ReactionItem → Dict String GroupedReaction → Dict String GroupedReaction
group_all current_user_id [] m = m
group_all current_user_id (r ∷ rs) m =
    group_all current_user_id rs
      (set r.emoji (add_to_group current_user_id r (get_or (get r.emoji m) (new_group r.emoji))) m)

unfoldable pub group_reactions : List ReactionItem → Option String → List GroupedReaction
unfolding group_all
group_reactions reactions current_user_id = map (λ e. e.1) (group_all current_user_id reactions [])
