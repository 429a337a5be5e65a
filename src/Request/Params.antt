-- ===== src/Request/Params.antt =====
-- request.go: `UnmarshalParameters`, and requests as a client builds them.
use harpy.Prelude.{
  ◌≡◌, ◌≢◌, ◌⊎◌, true, false, not, String, List, [], ◌∷◌, Option, none, some, arith, str_eq_iff,
  if◌then◌else◌,
}
use harpy.ErrorCode.{invalid_parameters_code}
use harpy.Error.{as_error, to_error, invalid_parameters, with_cause}
use harpy.Go.{Any, Bytes, raw_bytes, GoError, no_error, no_data, error_text, is_nil, Json}
use harpy.Jsonx.{UnmarshalOption, Decoder, unmarshal}
use harpy.Request.{
  Request, new_call_request, new_notify_request, is_notification, validate_server_side,
}
use harpy.Request.Spec.{IsIdType, Opens}
use harpy.Request.Laws.{validate_server_side_iff}

module _ {A : Type 0} (dec : Decoder A) (validate : A → Option GoError) where
  -- `UnmarshalParameters` into a value of type `A`. The argument `validate` is the method
  -- `Validate` of the value, or `none` where its type has no such method.
  unfoldable pub unmarshal_parameters : Request → List UnmarshalOption → A × GoError
  unfolding invalid_parameters with_cause
  unmarshal_parameters r options =
      let (v, err) = unmarshal dec (raw_bytes r.parameters) options in
      if not (is_nil err)
      then (v, as_error (invalid_parameters (with_cause err ∷ [])))
      else elim (validate v) [
        | none ↦ (v, no_error)
        | some failure ↦
            if not (is_nil failure)
            then (v, as_error (invalid_parameters (with_cause failure ∷ [])))
            else (v, no_error)
      ]

  -- The error of the decoder, or else that of the value's own validation.
  abbrev pub first_failure : Request → List UnmarshalOption → GoError
  first_failure r options =
      let (v, err) = unmarshal dec (raw_bytes r.parameters) options in
      if is_nil err then elim (validate v) [ none ↦ no_error | some failure ↦ failure ] else err

  -- The result is nil exactly if neither the decoder nor the value's own validation fails.
  -- Otherwise it is a server-side "invalid parameters" error without data, whose cause is the first
  -- of these errors and whose message is the text of that error.
  pub unmarshal_parameters_lem :
      (r : Request) (options : List UnmarshalOption)
      → ((first_failure r options ≡ no_error) × ((unmarshal_parameters r options).1 ≡ no_error))
        ⊎ ((first_failure r options ≢ no_error)
            × (to_error (unmarshal_parameters r options).1
                ≡ some (record {
                  code = invalid_parameters_code;
                  message = error_text (first_failure r options);
                  error_data = no_data;
                  is_server_side = true;
                  cause = first_failure r options;
                })))
  unfolding unmarshal_parameters
  unmarshal_parameters_lem r options = ground (arith, str_eq_iff "" "")

module _ (json : Json) (method : String) (params : Any) {c : Bytes} where
  -- If the ID marshals to bytes that `json.Unmarshal` reads as a string, number or null, and the
  -- parameters marshal to an array or an object, then the new call request is valid for a server,
  -- has this ID and is no notification.
  pub new_call_request-IsValid :
      (id : Any) {b : Bytes}
      → Json.marshal json id ≡ (some b, no_error)
      → (Json.unmarshal_any json (some b)).1 ≡ no_error
      → IsIdType (Json.unmarshal_any json (some b)).0
      → Json.marshal json params ≡ (some c, no_error)
      → Opens c
      → let (req, err) = new_call_request json id method params in
        (err ≡ no_error)
        × (validate_server_side json req ≡ none)
        × (req.id ≡ some b)
        × (is_notification req ≡ false)
  unfolding new_call_request is_notification
  new_call_request-IsValid id p q t u v =
      ground (arith, validate_server_side_iff json (new_call_request json id method params).0)

  -- If the parameters marshal to an array or an object, the new notification is valid for a server,
  -- and is a notification.
  pub new_notify_request-IsValid :
      Json.marshal json params ≡ (some c, no_error)
      → Opens c
      → let (req, err) = new_notify_request json method params in
        (err ≡ no_error) × (validate_server_side json req ≡ none) × (is_notification req ≡ true)
  unfolding new_notify_request is_notification
  new_notify_request-IsValid u v =
      ground (arith, validate_server_side_iff json (new_notify_request json method params).0)
