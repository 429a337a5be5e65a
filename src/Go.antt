-- ===== src/Go.antt =====
-- The Go values that the package handles: `error`, `any`, `json.RawMessage`, `context.Context` and
-- functions that may panic.
pub mod Rune
pub mod Input
pub mod Sink
pub mod Array
pub mod Run
use package.native.Mathlib.Decide.{ℕ_discrete}
use harpy.Prelude.{
  ℕ, ◌≡◌, refl, ◌≢◌, ◌⊎◌, inl, inr, Bool, true, false, String, Option, none, some, List,
}
use harpy.ErrorCode.{ErrorCode, describe_error}

abbrev pub Bytes : Type 0
Bytes = List ℕ

-- `json.RawMessage`; `none` is the nil slice, which differs from an empty one.
abbrev pub RawMessage : Type 0
RawMessage = Option Bytes

-- The bytes of a slice: none in a nil one.
abbrev pub raw_bytes : RawMessage → Bytes
raw_bytes none = List.[]
raw_bytes (some b) = b

pub Bytes-discrete : Discrete Bytes
Bytes-discrete = hlevel ℕ_discrete

pub RawMessage-discrete : Discrete RawMessage
RawMessage-discrete = hlevel ℕ_discrete

-- A value of type `any` that belongs to the application. The package only tests it for nil and
-- hands it to `json.Marshal` and to the value's own methods, so a name for it is enough.
pub data Any : Type 0 where
  nil_any : Any
  any_value : ℕ → Any

mutual
  -- A value of type `error`, by its dynamic type. `plain` is any error that wraps no other, such as
  -- that of `errors.New`; `wrapped` is one that does, such as that of `fmt.Errorf` with `%w`.
  -- `native` is `harpy.Error`, with its fields in order.
  pub data GoError : Type 0 where
    no_error : GoError
    canceled : GoError
    deadline_exceeded : GoError
    eof : GoError
    syntax_error : String → GoError
    unmarshal_type_error : String → GoError
    plain : String → GoError
    wrapped : String → GoError → GoError
    native : ErrorCode → String → ErrorData → Bool → GoError → GoError

  -- A value of type `errorData`. `in_memory` is an `inMemoryErrorData` with its fields in order:
  -- the value, whether `once` has run, and the stored data and error.
  pub data ErrorData : Type 0 where
    no_data : ErrorData
    json_data : Bytes → ErrorData
    in_memory : Any → Bool → RawMessage → GoError → ErrorData

abbrev pub is_nil : GoError → Bool
is_nil no_error = true
is_nil _ = false

pub no_error-cases : (err : GoError) → (err ≡ no_error) ⊎ ((is_nil err ≡ false) × (err ≢ no_error))
no_error-cases no_error = inl refl
no_error-cases err = inr (refl, λ e. cc)

-- `err.Error()`. On a nil error Go panics, and no caller here has one.
unfoldable pub error_text : GoError → String
error_text no_error = ""
error_text canceled = "context canceled"
error_text deadline_exceeded = "context deadline exceeded"
error_text eof = "EOF"
error_text (syntax_error m) = m
error_text (unmarshal_type_error m) = m
error_text (plain m) = m
error_text (wrapped m e) = m
error_text (native c m d s cause) = describe_error c m

-- `errors.Is(err, context.Canceled) || errors.Is(err, context.DeadlineExceeded)`, along the chain
-- of `Unwrap` calls.
unfoldable pub is_context_error : GoError → Bool
is_context_error canceled = true
is_context_error deadline_exceeded = true
is_context_error (wrapped m e) = is_context_error e
is_context_error (native c m d s cause) = is_context_error cause
is_context_error _ = false

-- A function that returns, or panics with a message.
pub data Outcome {ℓ} (A : Type ℓ) : Type ℓ where
  returns : A → Outcome A
  panics : String → Outcome A

-- The dynamic type of the value that `json.Unmarshal` stores in an `any`.
pub data Dynamic : Type 0 where
  nil_value bool_value float64_value string_value slice_value map_value : Dynamic

-- The functions of `encoding/json` on values that belong to no type of this package.
pub record Json : Type 0 where
  -- `json.Unmarshal(data, &value)` for `var value any`
  pub unmarshal_any : RawMessage → Dynamic × GoError
  -- `json.Marshal(value)`
  pub marshal : Any → RawMessage × GoError

-- What a `context.Context` says when it is asked for its error.
pub record Context : Type 0 where
  pub err : GoError
