-- ===== src/Types/Value.antt =====
-- `unknown`: what JSON can hold. A finite number is a decimal, as every double is: `number n places` is
-- n / 10 ^ places. NaN and the infinities are `not_finite`.
use github_idea_os_app.Base.{ℕ, String, Bool}
use github_idea_os_app.Base.Int.{ℤ}

mutual
  pub data Value : Type 0 where
    null : Value
    boolean : Bool → Value
    number : (n : ℤ) (places : ℕ) → Value
    not_finite : Value
    text : String → Value
    array : Items → Value
    object : Fields → Value

  pub data Items : Type 0 where
    nil : Items
    cons : Value → Items → Items

  pub data Fields : Type 0 where
    end : Fields
    field : String → Value → Fields → Fields
