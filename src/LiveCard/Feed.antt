-- ===== src/LiveCard/Feed.antt =====
-- The items of the card through its events.
use github_idea_os_app.Base.{
  ℕ, String, ◌≡◌, inl, inr, Bool, true, false, not, ◌||◌, Option, none, some, List, [], ◌∷◌, ◌++◌,
  arith, Bool-cases, if_lem, ◌==◌, string_eq, nat_eq, option_eq, is_some, any-append, includes,
  Perm,
}
use github_idea_os_app.Base.Async.{Response, resolved, rejected}
use github_idea_os_app.Base.Sort.{sort, IsSorted, IsOrder, sort-IsSorted, sort-perm}
use github_idea_os_app.LiveCard.{
  AgentTask, TaskMessagePayload, LiveCard, mounted, add_key, compare_seq, live_item, build_timeline,
  message_key, load_messages_end, on_message, load_task_end, on_finished, on_dispatch_end,
  cancel_start, cancel_end,
}

-- What may happen to a card, in any order.
pub data Step : Type 0 where
  loaded_task : Bool → Response (Option AgentTask) → Step
  loaded_messages : Bool → Response (List TaskMessagePayload) → Step
  message : TaskMessagePayload → Step
  finished : String → Step
  dispatched : Response (Option AgentTask) → Step
  cancel : Step
  cancelled : Response Bool → Step

seq-IsOrder : IsOrder compare_seq
seq-IsOrder = record { total = λ a b h. ground arith; trans = λ a b c h k. ground arith }

module _ (to_text : ℕ → String) (redact : String → String) (issue_id : String) where
  unfoldable pub step : Step → LiveCard → LiveCard
  step (loaded_task unmounted r) s = load_task_end unmounted r s
  step (loaded_messages unmounted r) s = load_messages_end to_text redact unmounted r s
  step (message m) s = on_message to_text issue_id m s
  step (finished event_issue) s = on_finished issue_id event_issue s
  step (dispatched r) s = on_dispatch_end r s
  step cancel s = (cancel_start s).0
  step (cancelled r) s = cancel_end r s

  unfoldable pub run : List Step → LiveCard → LiveCard
  run [] s = s
  run (e ∷ es) s = run es (step e s)

  IsOrdered : LiveCard → Type 0
  IsOrdered s = IsSorted compare_seq s.items

  step-IsOrdered : (e : Step) (s : LiveCard) → IsOrdered s → IsOrdered (step e s)
  unfolding step IsOrdered load_task_end load_messages_end build_timeline on_message on_finished
      on_dispatch_end cancel_start cancel_end
  step-IsOrdered (loaded_task unmounted (resolved t)) s h = if_lem IsOrdered unmounted s _ h h
  step-IsOrdered (loaded_task unmounted rejected) s h = h
  step-IsOrdered (loaded_messages unmounted (resolved ms)) s h =
      if_lem IsOrdered unmounted s _ h (sort-IsSorted compare_seq seq-IsOrder _)
  step-IsOrdered (loaded_messages unmounted rejected) s h = h
  step-IsOrdered (message m) s h =
      if_lem IsOrdered
        (not (m.issue_id == issue_id) || includes s.seen_seqs (message_key to_text m)) s _ h
        (sort-IsSorted compare_seq seq-IsOrder _)
  step-IsOrdered (finished event_issue) s h =
      if_lem IsOrdered (not (event_issue == issue_id)) s _ h tt
  step-IsOrdered (dispatched (resolved none)) s h = h
  step-IsOrdered (dispatched (resolved (some t))) s h = tt
  step-IsOrdered (dispatched rejected) s h = h
  step-IsOrdered cancel s h =
      if_lem (λ (r : LiveCard × Bool). IsOrdered r.0) (not (is_some s.active_task) || s.cancelling)
        (s, false) _ h h
  step-IsOrdered (cancelled (resolved b)) s h = h
  step-IsOrdered (cancelled rejected) s h = h

  -- Whatever has happened to a card that was mounted empty, its items stand in the order of their
  -- numbers.
  pub run-IsSorted : (es : List Step) → IsSorted compare_seq (run es mounted).items
  unfolding IsOrdered run
  run-IsSorted es = go es mounted tt
    where
      go : (es : List Step) (s : LiveCard) → IsOrdered s → IsOrdered (run es s)
      go [] s h = h
      go (e ∷ es) s h = go es (step e s) (step-IsOrdered e s h)

includes-add_key : (k : String) (ks : List String) → includes (add_key k ks) k ≡ true
includes-add_key k ks = elim (Bool-cases (includes ks k)) [
  | inl e ↦ rw e e
  | inr e ↦ rw e (ground (arith, any-append (λ x. x == k) ks (k ∷ [])))
]

module _ (to_text : ℕ → String) (issue_id : String) (m : TaskMessagePayload) where
  on_message_seen :
      (s : LiveCard)
      → includes s.seen_seqs (message_key to_text m) ≡ true
      → on_message to_text issue_id m s ≡ s
  unfolding on_message
  on_message_seen s h = ground arith

  on_message_new :
      (s : LiveCard)
      → (m.issue_id == issue_id) ≡ true
      → includes s.seen_seqs (message_key to_text m) ≡ false
      → on_message to_text issue_id m s ≡ record s {
        items = sort compare_seq (s.items ++ live_item m ∷ []);
        seen_seqs = add_key (message_key to_text m) s.seen_seqs;
      }
  unfolding on_message
  on_message_new s h new = ground arith

  -- A message of the issue that has not been seen becomes one more item, and when the same message
  -- comes again it changes nothing.
  pub on_message_lem :
      (s : LiveCard)
      → (m.issue_id == issue_id) ≡ true
      → includes s.seen_seqs (message_key to_text m) ≡ false
      → Perm (on_message to_text issue_id m s).items (s.items ++ live_item m ∷ [])
        × (on_message to_text issue_id m (on_message to_text issue_id m s)
            ≡ on_message to_text issue_id m s)
  on_message_lem s h new = rw (on_message_new s h new) (
    sort-perm compare_seq (s.items ++ live_item m ∷ []),
    on_message_seen _ (includes-add_key (message_key to_text m) s.seen_seqs),
  )
