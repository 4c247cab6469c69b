-- ===== src/RuntimeJobs/Polling.antt =====
-- What the answers of the polls leave.
use github_idea_os_app.Base.{
  String, ◌≡◌, refl, inl, inr, Bool, true, false, Option, List, [], ◌∷◌, Bool-cases, string_eq,
  nat_eq, option_eq, is_some, any,
}
use github_idea_os_app.Base.Async.{Response, resolved, rejected}
use github_idea_os_app.RuntimeJobs.{
  JobStatus, pending, running, JobResult, PingSection, ping_status, ping_polled, UpdateSection,
  update_status, update_polled,
}

abbrev pub is_final_status : JobStatus → Bool
is_final_status pending = false
is_final_status running = false
is_final_status _ = true

-- The answer says that the job has ended.
abbrev pub is_final : Response JobResult → Bool
is_final rejected = false
is_final (resolved r) = is_final_status r.status

-- The answers to the polls one after the other, those included that come when the interval is gone.
unfoldable pub ping_all : List (Response JobResult) → PingSection → PingSection
ping_all [] s = s
ping_all (r ∷ rs) s = ping_all rs (ping_polled r s)

unfoldable pub update_all : List (Response JobResult) → UpdateSection → UpdateSection
update_all [] s = s
update_all (r ∷ rs) s = update_all rs (update_polled r s)

-- The section neither polls nor waits.
abbrev pub Settled : Option String → Bool → Type 0
Settled poll waiting = (is_some poll ≡ false) × (waiting ≡ false)

ping_status-Settled :
    (status : JobStatus) (r : JobResult) (s : PingSection)
    → Settled s.poll s.testing
    → Settled (ping_status status r s).poll (ping_status status r s).testing
unfolding ping_status
ping_status-Settled pending r s h = h
ping_status-Settled running r s h = h
ping_status-Settled _ r s h = (refl, refl)

ping-Settled :
    (rs : List (Response JobResult)) (s : PingSection)
    → Settled s.poll s.testing
    → Settled (ping_all rs s).poll (ping_all rs s).testing
unfolding ping_all ping_polled
ping-Settled [] s h = h
ping-Settled (rejected ∷ rs) s h = ping-Settled rs s h
ping-Settled (resolved r ∷ rs) s h =
    ping-Settled rs (ping_status r.status r s) (ping_status-Settled r.status r s h)

ping_status_final :
    (status : JobStatus) (r : JobResult) (s : PingSection)
    → is_final_status status ≡ true
    → Settled (ping_status status r s).poll (ping_status status r s).testing
unfolding ping_status
ping_status_final pending r s h = cc
ping_status_final running r s h = cc
ping_status_final _ r s h = (refl, refl)

ping_all_final :
    (rs : List (Response JobResult)) (s : PingSection)
    → any is_final rs ≡ true
    → Settled (ping_all rs s).poll (ping_all rs s).testing
unfolding ping_all ping_polled
ping_all_final [] s h = cc
ping_all_final (rejected ∷ rs) s h = ping_all_final rs s h
ping_all_final (resolved r ∷ rs) s h = elim (Bool-cases (is_final_status r.status)) [
  | inl e ↦ ping-Settled rs (ping_status r.status r s) (ping_status_final r.status r s e)
  | inr e ↦ ping_all_final rs (ping_status r.status r s) (rw e at h)
]

update_status-Settled :
    (status : JobStatus) (r : JobResult) (s : UpdateSection)
    → Settled s.poll s.updating
    → Settled (update_status status r s).poll (update_status status r s).updating
unfolding update_status
update_status-Settled pending r s h = h
update_status-Settled running r s h = h
update_status-Settled _ r s h = (refl, refl)

update-Settled :
    (rs : List (Response JobResult)) (s : UpdateSection)
    → Settled s.poll s.updating
    → Settled (update_all rs s).poll (update_all rs s).updating
unfolding update_all update_polled
update-Settled [] s h = h
update-Settled (rejected ∷ rs) s h = update-Settled rs s h
update-Settled (resolved r ∷ rs) s h =
    update-Settled rs (update_status r.status r s) (update_status-Settled r.status r s h)

update_status_final :
    (status : JobStatus) (r : JobResult) (s : UpdateSection)
    → is_final_status status ≡ true
    → Settled (update_status status r s).poll (update_status status r s).updating
unfolding update_status
update_status_final pending r s h = cc
update_status_final running r s h = cc
update_status_final _ r s h = (refl, refl)

update_all_final :
    (rs : List (Response JobResult)) (s : UpdateSection)
    → any is_final rs ≡ true
    → Settled (update_all rs s).poll (update_all rs s).updating
unfolding update_all update_polled
update_all_final [] s h = cc
update_all_final (rejected ∷ rs) s h = update_all_final rs s h
update_all_final (resolved r ∷ rs) s h = elim (Bool-cases (is_final_status r.status)) [
  | inl e ↦ update-Settled rs (update_status r.status r s) (update_status_final r.status r s e)
  | inr e ↦ update_all_final rs (update_status r.status r s) (rw e at h)
]

-- Polling ends: when one of the answers says that the job has ended, both sections no longer poll and
-- no longer wait after these answers, whatever comes before or after it.
pub polling_ends :
    (rs : List (Response JobResult)) (p : PingSection) (u : UpdateSection)
    → any is_final rs ≡ true
    → Settled (ping_all rs p).poll (ping_all rs p).testing
      × Settled (update_all rs u).poll (update_all rs u).updating
polling_ends rs p u h = (ping_all_final rs p h, update_all_final rs u h)
