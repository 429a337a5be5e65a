-- ===== src/Router/Answers.antt =====
-- router.go: the responses of a router, their IDs and whether they are valid.
use harpy.Prelude.{
  ◌≡◌, ◌≢◌, ◌↔◌, inl, inr, [], Option, none, some, arith, Option-cases, not, if◌then◌else◌,
}
use harpy.Error.{as_error, method_not_found}
use harpy.Go.{
  Context, Any, nil_any, RawMessage, raw_bytes, GoError, no_error, no_error-cases, is_nil, Json,
}
use harpy.Request.{Request}
use harpy.Response.{
  failure, response_id, new_error_response, new_success_response, validate_response,
}
use harpy.Response.Laws.{
  IsResponseId, new_error_response-valid, new_success_response-valid_iff, new_error_response-id,
  new_success_response-id,
}
use harpy.Router.{UntypedHandler, Router, lookup, call}

-- A router answers each call under the ID of the call.
pub call-id :
    (json : Json) (validate : Any → Option GoError) (r : Router) (ctx : Context) (req : Request)
    → response_id (call json validate r ctx req) ≡ req.id
unfolding call
call-id json validate r ctx req = elim (Option-cases (lookup req.method r.routes)) [
  | inl e ↦ ground (arith, e, new_error_response-id json req.id (as_error (method_not_found [])))
  | inr (h, e) ↦
      let (result, err) = h ctx req in
      ground (
        arith,
        e,
        new_error_response-id json req.id err,
        new_success_response-id json validate req.id result,
      )
]

-- The method has a handler that returns a nil result without an error.
abbrev pub LacksResult : Context → Request → Option UntypedHandler → Type 0
LacksResult ctx req none = ⊥
LacksResult ctx req (some h) = (h ctx req).0 ≡ nil_any × ((h ctx req).1 ≡ no_error)

module _ (json : Json) (validate : Any → Option GoError) (id : RawMessage)
    (may_stand : IsResponseId json id)
    (law : (v : Any)
      → (Json.marshal json v).1 ≡ no_error
      → raw_bytes (Json.marshal json v).0 ≢ []) where
  answer-valid_iff :
      (result : Any) (err : GoError)
      → (validate_response json (
            if not (is_nil err)
            then failure (new_error_response json id err)
            else new_success_response json validate id result)
          ≡ no_error)
        ↔ ¬ ((result ≡ nil_any) × (err ≡ no_error))
  answer-valid_iff result err = elim (no_error-cases err) [
    | inl good ↦
        let k = new_success_response-valid_iff json validate id result may_stand law in ground arith
    | inr (full, bad) ↦ let k = new_error_response-valid json id err may_stand in ground arith
  ]

-- If `json.Marshal` never gives an empty text without an error, and the ID of a call may stand in a
-- response, then what a router answers passes validation exactly if it is not that the method has a
-- handler which returns a nil result without an error.
pub call-valid_iff :
    (json : Json) (validate : Any → Option GoError) (r : Router) (ctx : Context) (req : Request)
    → IsResponseId json req.id
    → ((v : Any) → (Json.marshal json v).1 ≡ no_error → raw_bytes (Json.marshal json v).0 ≢ [])
    → (validate_response json (call json validate r ctx req) ≡ no_error)
      ↔ ¬ LacksResult ctx req (lookup req.method r.routes)
unfolding call
call-valid_iff json validate r ctx req id law = elim (Option-cases (lookup req.method r.routes)) [
  | inl e ↦
      let valid = new_error_response-valid json req.id (as_error (method_not_found [])) id in
      rw (e, call) (λ v h. h, λ v. valid)
  | inr (h, e) ↦
      rw (e, call) (answer-valid_iff json validate req.id id law (h ctx req).0 (h ctx req).1)
]
