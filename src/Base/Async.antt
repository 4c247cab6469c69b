-- ===== src/Base/Async.antt =====
-- What an awaited call of the server answers.
use mathlib.Core.Option.{Option, none, some}

pub data Response {ℓ} (A : Type ℓ) : Type ℓ where
  resolved : A → Response A
  rejected : Response A

-- The value of an answer that is no failure.
abbrev pub answered {ℓ} : {A : Type ℓ} → Response A → Option A
answered (resolved a) = some a
answered rejected = none
