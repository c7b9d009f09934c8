-- ===== src/Publish/Failure.antt =====
-- A thrown `Error`, by its name and message, and the outcome of code that may throw.
use ai_content_workflow.Prelude.{String}

pub record Failure : Type 0 where
  pub name : String
  pub message : String

pub data Result {ℓ} (A : Type ℓ) : Type ℓ where
  ok : A → Result A
  err : Failure → Result A

infixl 5 ◌>>=◌
abbrev pub ◌>>=◌ {ℓ κ} : {A : Type ℓ} {B : Type κ} → Result A → (A → Result B) → Result B
ok a >>= f = f a
err e >>= f = err e

-- `throw new Error(message)`
abbrev pub error {ℓ} : {A : Type ℓ} → String → Result A
error message = err (record { name = "Error"; message = message })
