-- ===== src/Request/Laws.antt =====
-- request.go: validation of requests, and the conforming ones.
use harpy.Prelude.{◌≡◌, ◌≢◌, ◌↔◌, ◌⊎◌, true, [], ◌∷◌, map, none, some, arith, str_eq_iff}
use harpy.Prelude.Text.{codes}
use harpy.ErrorCode.{parse_error_code, invalid_request_code, invalid_parameters_code}
use harpy.Error.{Error}
use harpy.Go.{no_data, Bytes, RawMessage, raw_bytes, no_error, Json}
use harpy.Request.{
  Request, lower, equal_fold, validate_request_id, validate_parameters, validate_server_side,
}
use harpy.Request.Spec.{IsIdType, IsId, IsParameters, IsValid}

pub equal_fold_iff : (s t : Bytes) → (equal_fold s t ≡ true) ↔ (map lower s ≡ map lower t)
unfolding equal_fold
equal_fold_iff [] [] = ground arith
equal_fold_iff (a ∷ s) (b ∷ t) = ground (arith, equal_fold_iff s t)
equal_fold_iff [] (b ∷ t) = ground arith
equal_fold_iff (a ∷ s) [] = ground arith

validate_parameters_iff : (b : Bytes) → (validate_parameters b ≡ none) ↔ IsParameters b
unfolding validate_parameters
validate_parameters_iff [] = ground arith
validate_parameters_iff (c ∷ []) = ground (arith, equal_fold_iff (c ∷ []) (codes "null"))
validate_parameters_iff (c ∷ d ∷ rest) =
    ground (arith, equal_fold_iff (c ∷ d ∷ rest) (codes "null"))

validate_request_id_iff :
    (json : Json) (id : RawMessage)
    → (validate_request_id json id ≡ none)
      ↔ (((Json.unmarshal_any json id).1 ≡ no_error) × IsIdType (Json.unmarshal_any json id).0)
unfolding validate_request_id
validate_request_id_iff json id = ground arith

-- A request passes validation exactly if its version is "2.0", its ID is absent or a JSON string,
-- number or null, and its parameters are absent, null, or open as an array or object.
pub validate_server_side_iff :
    (json : Json) (r : Request) → (validate_server_side json r ≡ none) ↔ IsValid json r
unfolding validate_server_side
validate_server_side_iff json r = ground (
  arith,
  str_eq_iff r.version "2.0",
  validate_request_id_iff json r.id,
  validate_parameters_iff (raw_bytes r.parameters),
)

pub validate_server_side_error :
    (json : Json) (r : Request) {e : Error}
    → validate_server_side json r ≡ some e
    → (e.is_server_side ≡ true)
      × (e.error_data ≡ no_data)
      × (((e.code ≡ invalid_request_code) × (r.version ≢ "2.0"))
          ⊎ (((e.code ≡ parse_error_code)
                × (r.version ≡ "2.0")
                × ((Json.unmarshal_any json r.id).1 ≢ no_error)
                × (e.cause ≡ (Json.unmarshal_any json r.id).1))
              ⊎ (((e.code ≡ invalid_request_code) × (r.version ≡ "2.0") × ¬ IsId json r.id)
                  ⊎ ((e.code ≡ invalid_parameters_code)
                      × (r.version ≡ "2.0")
                      × IsId json r.id
                      × ¬ IsParameters (raw_bytes r.parameters)))))
unfolding validate_server_side
validate_server_side_error json r h =
    ground (arith, str_eq_iff r.version "2.0", validate_parameters_iff (raw_bytes r.parameters))
