-- ===== src/Http/Client/Tests.antt =====
-- The theorems about the client at concrete calls.
use harpy.Prelude.{List, ◌+◌, ◌≡◌, refl, ◌≢◌, ◌↔◌, [], ◌∷◌, some, arith}
use harpy.Prelude.Text.{codes}
use harpy.Go.{Any, nil_any, Bytes, RawMessage, Json, float64_value, no_error, any_value, returns}
use harpy.Jsonx.{Decoder}
use harpy.Request.{Request, new_call_request, new_notify_request, validate_client_side}
use harpy.Http.Client.{Client, HttpPost, Net, pointer, nil_pointer, next_id, call, notify}
use harpy.Http.Client.Ids.{Invocation, after, sent_by, post_of, ids_distinct}
use harpy.Http.Client.Panics.{DoesReturn, client_returns_iff}
use harpy.Http.Client.Laws.{
  outgoing, receipts, closings, IsPrepared, Answers, outcome, bodies_closed, notify_succeeds_iff,
  call_succeeds_iff,
}
use harpy.Samples.{
  sample_json, sample_response_decoder, sample_net, http_response, new_client, background,
}

-- A decoder that reads the rest of the text as it is.
abbrev raw : Decoder Bytes
raw strict r = (r.content, no_error)

abbrev net : Net
net = sample_net (http_response 200)

-- A `json.Marshal` that writes each number in its own way.
abbrev plain_json : Json
plain_json = record {
  unmarshal_any = λ raw. (float64_value, no_error);
  marshal = λ v. (marshaled v, no_error);
}
  where
    marshaled : Any → RawMessage
    marshaled nil_any = some (codes "null")
    marshaled (any_value n) = some (n ∷ [])

abbrev numbered_net : Net
numbered_net = record net { uint32_value = any_value }

abbrev get_again : Invocation
get_again = record { context = background; method = "Get"; params = nil_any; result = pointer }

abbrev posts_of : Client → List HttpPost
posts_of c = sent_by plain_json sample_response_decoder numbered_net raw [] c get_again

abbrev later : Client
later = after plain_json sample_response_decoder numbered_net raw [] (get_again ∷ []) new_client

first_posts : posts_of new_client ≢ []
unfolding call new_call_request validate_client_side next_id
first_posts = λ e. cc

second_posts : posts_of later ≢ []
unfolding call new_call_request validate_client_side next_id after
second_posts = λ e. cc

ids_distinct_example :
    (req : Request) × ((req' : Request) × ((posts_of new_client
          ≡ post_of plain_json sample_response_decoder numbered_net raw [] new_client req ∷ [])
        × (posts_of later
            ≡ post_of plain_json sample_response_decoder numbered_net raw [] later req' ∷ [])
        × (req.id ≢ req'.id)))
ids_distinct_example =
    ids_distinct plain_json sample_response_decoder numbered_net raw [] new_client get_again
      get_again [] (omega arith) (omega arith) (λ m n h k e. cc) first_posts second_posts

bodies_closed_example :
    let called =
      ((call sample_json sample_response_decoder net raw [] new_client background "Get"
          (any_value 1)
          nil_pointer).1
        []).1 in
    let notified =
      (notify sample_json sample_response_decoder net new_client background "Get"
        (any_value 1)
        []).1 in
    (receipts called + 0 ≡ 0 + closings called) × (receipts notified + 0 ≡ 0 + closings notified)
bodies_closed_example =
    bodies_closed sample_json sample_response_decoder net new_client background "Get" (any_value 1)
      [] raw [] nil_pointer

notification-IsPrepared :
    IsPrepared sample_json sample_response_decoder net new_client background "Get"
      (any_value 1)
      []
      (new_notify_request sample_json "Get" (any_value 1))
unfolding new_notify_request validate_client_side
notification-IsPrepared = (refl, refl, refl, refl)

notify_succeeds_iff_example :
    ((notify sample_json sample_response_decoder net new_client background "Get" (any_value 1) []).0
      ≡ returns no_error)
    ↔ ((no_error ≡ no_error) × ((http_response 200).status_code ≡ 204))
notify_succeeds_iff_example =
    notify_succeeds_iff sample_json sample_response_decoder net new_client background "Get"
      (any_value 1) [] notification-IsPrepared

call-IsPrepared :
    IsPrepared sample_json sample_response_decoder net new_client background "Get"
      (any_value 1)
      []
      (new_call_request sample_json (any_value 0) "Get" (any_value 1))
unfolding new_call_request validate_client_side
call-IsPrepared = (refl, refl, refl, refl)

call_succeeds_iff_example :
    (outcome sample_json sample_response_decoder net new_client background "Get"
        (any_value 1)
        []
        raw
        []
      ≡ returns (no_error, some (codes "[1]")))
    ↔ ((no_error ≡ no_error)
        × Answers sample_json sample_response_decoder net new_client background "Get"
            (any_value 1)
            []
            raw
            []
            (http_response 200)
            (codes "[1]"))
call_succeeds_iff_example =
    call_succeeds_iff sample_json sample_response_decoder net new_client background "Get"
      (any_value 1) [] raw [] (codes "[1]") call-IsPrepared

client_returns_iff_example :
    (DoesReturn
        ((call sample_json sample_response_decoder net raw [] new_client background "Get"
            (any_value 1)
            nil_pointer).1
          []).0
      ↔ (IsPrepared sample_json sample_response_decoder net new_client background "Get"
            (any_value 1)
            []
            (outgoing sample_json sample_response_decoder net new_client background "Get"
              (any_value 1)
              []
              raw
              [])
          × (nil_pointer ≡ pointer)))
    × (DoesReturn
          (notify sample_json sample_response_decoder net new_client background "Get"
            (any_value 1)
            []).0
        ↔ IsPrepared sample_json sample_response_decoder net new_client background "Get"
            (any_value 1)
            []
            (new_notify_request sample_json "Get" (any_value 1)))
client_returns_iff_example =
    client_returns_iff sample_json sample_response_decoder net new_client background "Get"
      (any_value 1) [] (λ req e. cc) raw [] nil_pointer
