-- ===== src/Error/Laws.antt =====
-- error.go: which constructor accepts a code, how the options combine, and the stored data.
use mathlib.Core.List.{foldl-append}
use harpy.Prelude.{
  ◌≡◌, ◌≢◌, ◌⊎◌, inl, inr, true, false, String, List, [], ◌∷◌, ◌++◌, arith, str_eq_iff, Bool-cases,
}
use harpy.ErrorCode.{ErrorCode, is_reserved}
use harpy.Go.{GoError, returns, panics, Json}
use harpy.Error.{
  Error, reserved_text, not_reserved_text, ErrorOption, new_error, new_application_error,
  new_error_with_reserved_code, with_cause, with_message, marshal_data,
}

-- Each code is accepted by exactly one of `NewError` and `NewErrorWithReservedCode`, the second if
-- the code is reserved: that one returns the new error, and the other panics.
pub new_error_partition :
    (c : ErrorCode) (options : List ErrorOption)
    → ((is_reserved c ≡ true)
        × (new_error_with_reserved_code c options ≡ returns (new_error c options))
        × (new_application_error c options ≡ panics (reserved_text c)))
      ⊎ ((is_reserved c ≡ false)
          × (new_application_error c options ≡ returns (new_error c options))
          × (new_error_with_reserved_code c options ≡ panics (not_reserved_text c)))
unfolding new_application_error new_error_with_reserved_code
new_error_partition c options = elim (Bool-cases (is_reserved c)) [
  | inl y ↦ inl (y, rw y, rw y)
  | inr n ↦ inr (n, rw n, rw n)
]

-- At the end of any options, a cause and a message that is not empty can be given in either order:
-- the error is the same.
pub with_cause-with_message_comm :
    (c : ErrorCode) (options : List ErrorOption) (k : GoError) (m : String)
    → m ≢ ""
    → new_error c (options ++ with_cause k ∷ with_message m ∷ [])
      ≡ new_error c (options ++ with_message m ∷ with_cause k ∷ [])
unfolding new_error with_cause with_message
with_cause-with_message_comm c options k m h =
    rw (foldl-append, foldl-append) (ground (arith, str_eq_iff m ""))

-- The data is marshaled once: after a first `MarshalData`, a second one gives the same result and
-- leaves the error as it is, even if `json.Marshal` would now answer differently.
pub marshal_data_idem :
    (json json' : Json) (e : Error) → let r = marshal_data json e in marshal_data json' r.3 ≡ r
unfolding marshal_data
marshal_data_idem json json' e = ground arith
