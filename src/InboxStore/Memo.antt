-- ===== src/InboxStore/Memo.antt =====
-- `_prevItems` and `_prevDeduped`: the answer of the last call, kept while the array is the same
-- object. An array is an address and its contents.
use mathlib.Core.Bool.{false≢true}
use github_idea_os_app.Base.{
  ℕ, String, ◌≡◌, refl, sym, ◌∙◌, ◌⊎◌, inl, inr, true, false, List, arith, if◌then◌else◌,
  Bool-cases, ◌==◌, string_eq, nat_eq, option_eq,
}
use github_idea_os_app.Types.Inbox.{InboxItem}
use github_idea_os_app.InboxStore.{deduplicate}

pub record ArrayRef : Type 0 where
  pub address : ℕ
  pub contents : List InboxItem

pub record Memo : Type 0 where
  pub prev_items : ArrayRef
  pub prev_deduped : List InboxItem

-- `deduplicateInboxItems`: the result, and what is kept for the next call.
unfoldable pub deduplicate_inbox_items : (String → ℕ) → ArrayRef → Memo → List InboxItem × Memo
deduplicate_inbox_items time items m =
    if items.address == m.prev_items.address then (m.prev_deduped, m) else (
      deduplicate time items.contents,
      record { prev_items = items; prev_deduped = deduplicate time items.contents },
    )

-- What is kept is the result for the array that it was computed from, and an array with the address
-- of that one has its contents: no code changes the contents of a store's array.
pub record IsCurrent (time : String → ℕ) (items : ArrayRef) (m : Memo) : Type 0 where
  pub kept : m.prev_deduped ≡ deduplicate time m.prev_items.contents
  pub same :
      ((items.address == m.prev_items.address) ≡ false) ⊎ (items.contents ≡ m.prev_items.contents)

-- The memory is transparent: while it is current, a call answers as if it computed afresh, and what
-- it keeps is the result for the array that it was called on.
pub deduplicate_inbox_items_lem :
    (time : String → ℕ) (items : ArrayRef) (m : Memo)
    → IsCurrent time items m
    → ((deduplicate_inbox_items time items m).0 ≡ deduplicate time items.contents)
      × ((deduplicate_inbox_items time items m).1.prev_items.address ≡ items.address)
      × ((deduplicate_inbox_items time items m).1.prev_deduped ≡ deduplicate time items.contents)
unfolding deduplicate_inbox_items
deduplicate_inbox_items_lem time items m c =
    elim (Bool-cases (items.address == m.prev_items.address)) [
      | inl e ↦ rw (e, deduplicate_inbox_items) (again e c.same, ground arith, again e c.same)
      | inr e ↦ rw (e, deduplicate_inbox_items) (refl, refl, refl)
    ]
  where
    again :
        (items.address == m.prev_items.address) ≡ true
        → ((items.address == m.prev_items.address) ≡ false)
          ⊎ (items.contents ≡ m.prev_items.contents)
        → m.prev_deduped ≡ deduplicate time items.contents
    again e (inl d) = absurd (false≢true (sym d ∙ e))
    again e (inr d) = rw d c.kept
