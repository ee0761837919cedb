-- ===== src/Errors.antt =====
-- Go's error values, as far as the program looks into them: `errors.As` and `errors.Is` follow the
-- chain of `Unwrap`.
use server_monitor.Base.Text.{append}
use server_monitor.Base.{String, Bool, true, false}

-- The wrapper type `permanentError` of alert-service/kafka/consumer.go is a constructor.
pub data GoError : Type 0 where
  message : String → GoError
  wrapped : String → GoError → GoError
  permanent_error : GoError → GoError

pub data Result {ℓ} (A : Type ℓ) : Type ℓ where
  ok : A → Result A
  err : GoError → Result A

abbrev pub is_ok {ℓ} : {A : Type ℓ} → Result A → Bool
is_ok (ok a) = true
is_ok (err e) = false

-- `if err != nil { return err }`, and the code that follows it.
infixl 5 ◌>>=◌
abbrev pub ◌>>=◌ {ℓ κ} : {A : Type ℓ} {B : Type κ} → Result A → (A → Result B) → Result B
r >>= next = elim r [ ok value ↦ next value | err failure ↦ err failure ]

-- err.Error()
unfoldable pub error_text : GoError → String
error_text (message m) = m
error_text (wrapped m e) = append m (append ": " (error_text e))
error_text (permanent_error e) = error_text e
