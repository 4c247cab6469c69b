-- ===== src/RuntimeJobs/Version.antt =====
-- The order of versions that `isNewer` gives.
use github_idea_os_app.Base.{
  ℕ, String, ◌≡◌, refl, true, false, Option, none, some, List, [], ◌∷◌, arith, string_eq, nat_eq,
  option_eq,
}
use github_idea_os_app.RuntimeJobs.{above_part, newer_parts, version_parts, is_newer}

newer_parts_asym : (ls cs : List (Option ℕ)) → newer_parts ls cs ≡ true → newer_parts cs ls ≡ false
unfolding newer_parts above_part
newer_parts_asym [] [] h = refl
newer_parts_asym [] (none ∷ cs) h = ground (arith, newer_parts_asym [] cs)
newer_parts_asym [] (some c ∷ cs) h = ground (arith, newer_parts_asym [] cs)
newer_parts_asym (none ∷ ls) [] h = ground (arith, newer_parts_asym ls [])
newer_parts_asym (some l ∷ ls) [] h = ground (arith, newer_parts_asym ls [])
newer_parts_asym (none ∷ ls) (none ∷ cs) h = ground (arith, newer_parts_asym ls cs)
newer_parts_asym (none ∷ ls) (some c ∷ cs) h = ground (arith, newer_parts_asym ls cs)
newer_parts_asym (some l ∷ ls) (none ∷ cs) h = ground (arith, newer_parts_asym ls cs)
newer_parts_asym (some l ∷ ls) (some c ∷ cs) h = ground (arith, newer_parts_asym ls cs)

module _ (to_number : String → Option ℕ) where
  -- No version is newer than one that is newer than it, whatever the parts of the texts are; so none
  -- is newer than itself.
  pub is_newer_asym :
      (a b : String) → is_newer to_number a b ≡ true → is_newer to_number b a ≡ false
  unfolding is_newer
  is_newer_asym a b h = newer_parts_asym (version_parts to_number a) (version_parts to_number b) h
