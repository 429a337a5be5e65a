-- ===== src/Router.antt =====
-- router.go: a router from method names to handlers.
pub mod Laws
pub mod Answers
mod Tests
use mathlib.Core.List.{foldl}
use harpy.Prelude.{
  ℕ, Bool, true, false, String, ◌<>◌, str_eq, List, [], ◌∷◌, Option, none, some, not, if◌then◌else◌,
}
use harpy.Error.{as_error, method_not_found}
use harpy.Go.{Context, Any, nil_any, GoError, no_error, is_nil, Outcome, returns, panics, Json}
use harpy.Jsonx.{UnmarshalOption, Decoder}
use harpy.Request.{Request}
use harpy.Request.Params.{unmarshal_parameters}
use harpy.Response.{Response, success, failure, new_error_response, new_success_response}

abbrev pub UntypedHandler : Type 0
UntypedHandler = Context → Request → Any × GoError

-- The map from method names to handlers, with the newest route first.
pub record Router : Type 0 where
  pub routes : List (String × UntypedHandler)

unfoldable pub lookup : String → List (String × UntypedHandler) → Option UntypedHandler
lookup m [] = none
lookup m ((name, h) ∷ more) = if str_eq name m then some h else lookup m more

abbrev pub RouterOption : Type 0
RouterOption = Router → Outcome Router

abbrev pub duplicate_text : String → String
duplicate_text m = "duplicate route for '" <> (m <> "' method")

unfoldable pub with_untyped_route : String → UntypedHandler → RouterOption
with_untyped_route m h r = elim (lookup m r.routes) [
  | some _ ↦ panics (duplicate_text m)
  | none ↦ returns (record { routes = (m, h) ∷ r.routes })
]

-- The handler that `WithRoute` registers for parameters of type `A`, where `validate` is their
-- method `Validate`, if any.
unfoldable pub typed_handler :
    {A : Type 0}
    → Decoder A
    → (A → Option GoError)
    → (Context → A → Any × GoError)
    → List UnmarshalOption
    → UntypedHandler
typed_handler dec validate h options ctx req =
    let (params, err) = unmarshal_parameters dec validate req options in
    if not (is_nil err) then (nil_any, err) else h ctx params

unfoldable pub with_route :
    {A : Type 0}
    → Decoder A
    → (A → Option GoError)
    → String
    → (Context → A → Any × GoError)
    → List UnmarshalOption
    → RouterOption
unfolding with_untyped_route
with_route dec validate m h options = with_untyped_route m (typed_handler dec validate h options)

unfoldable pub no_result : {A : Type 0} → (Context → A → GoError) → Context → A → Any × GoError
no_result h ctx params = (nil_any, h ctx params)

-- The options in order, up to the first panic.
unfoldable pub apply_routes : List RouterOption → Router → Outcome Router
apply_routes [] r = returns r
apply_routes (opt ∷ more) r = elim (opt r) [
  | panics message ↦ panics message
  | returns r' ↦ apply_routes more r'
]

unfoldable pub new_router : List RouterOption → Outcome Router
unfolding apply_routes
new_router options = apply_routes options (record { routes = [] })

module _ (json : Json) (validate : Any → Option GoError) (r : Router) where
  unfoldable pub call : Context → Request → Response
  call ctx req = elim (lookup req.method r.routes) [
    | none ↦ failure (new_error_response json req.id (as_error (method_not_found [])))
    | some h ↦
        let (result, err) = h ctx req in
        if not (is_nil err)
        then failure (new_error_response json req.id err)
        else new_success_response json validate req.id result
  ]

unfoldable pub notify : Router → Context → Request → GoError
notify r ctx req = elim (lookup req.method r.routes) [
  | none ↦ as_error (method_not_found [])
  | some h ↦ (h ctx req).1
]

unfoldable pub has_route : Router → String → Bool
has_route r m = elim (lookup m r.routes) [ none ↦ false | some _ ↦ true ]
