-- ===== src/Usage/Format.antt =====
-- The text of a time that has passed.
use github_idea_os_app.Base.{
  ℕ, ◌+◌, ◌-◌, ◌*◌, ◌/◌, ◌≤◌, ◌<◌, String, inl, inr, some, arith, Bool-cases, string_eq, nat_eq,
  option_eq, ltb,
}
use github_idea_os_app.Usage.{format_last_seen}
use Prim.Native.String.{◌++◌ as text_append}

-- The amount of a unit and what is left of it make up the time that has passed.
abbrev pub Counts : ℕ → ℕ → ℕ → Type 0
Counts unit n diff = (n * unit ≤ diff) × (diff < (n + 1) * unit)

module _ (to_text : ℕ → String) where
  -- What the text says of a time that has passed, in milliseconds.
  pub data Reading : ℕ → String → Type 0 where
    now_reading : {diff : ℕ} → diff < 60_000 → Reading diff "Just now"
    minutes :
        {diff : ℕ} (n : ℕ)
        → 1 ≤ n
        → n < 60
        → Counts 60_000 n diff
        → Reading diff (text_append (to_text n) "m ago")
    hours :
        {diff : ℕ} (n : ℕ)
        → 1 ≤ n
        → n < 24
        → Counts 3_600_000 n diff
        → Reading diff (text_append (to_text n) "h ago")
    days :
        {diff : ℕ} (n : ℕ)
        → 1 ≤ n
        → Counts 86_400_000 n diff
        → Reading diff (text_append (to_text n) "d ago")

  -- A time that is seen reads as "Just now" below a minute, as whole minutes from 1 to 59, as whole
  -- hours from 1 to 23, or else as whole days, at least 1: the number of units is the one that has passed.
  format_last_seen_bounds :
      (now seen : ℕ) → Reading (now - seen) (format_last_seen to_text now (some seen))
  unfolding format_last_seen
  format_last_seen_bounds now seen = elim (Bool-cases (ltb (now - seen) 60_000)) [
    | inl a ↦ rw a (now_reading (ground arith))
    | inr a ↦ elim (Bool-cases (ltb (now - seen) 3_600_000)) [
      | inl b ↦
          rw (a, b)
            (minutes ((now - seen) / 60_000) (ground arith) (ground arith)
              (ground arith, ground arith))
      | inr b ↦ elim (Bool-cases (ltb (now - seen) 86_400_000)) [
        | inl c ↦
            rw (a, b, c)
              (hours ((now - seen) / 3_600_000) (ground arith) (ground arith)
                (ground arith, ground arith))
        | inr c ↦
            rw (a, b, c)
              (days ((now - seen) / 86_400_000) (ground arith) (ground arith, ground arith))
      ]
    ]
  ]
