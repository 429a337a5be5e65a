-- ===== src/Http/Client/Ids.antt =====
-- transport/httptransport/client.go: the IDs of a client's calls.
use harpy.Prelude.{
  ℕ, suc, ◌+◌, ◌%◌, ◌^◌, ◌<◌, ◌≡◌, ◌≢◌, ◌⊎◌, inl, inr, sym, ◌∙◌, String, List, [], ◌∷◌, ◌++◌,
  length, arith,
}
use harpy.Go.{Any, Context, GoError, Json}
use harpy.Jsonx.{Decoder, UnmarshalOption}
use harpy.Response.Set.{ResponseDecoder}
use harpy.Request.{Request, new_call_request}
use harpy.Http.Client.{Client, ClientEvent, HttpPost, posted, Net, ResultParameter, next_id, call}

-- The HTTP requests that have been sent.
abbrev pub posts : List ClientEvent → List HttpPost
posts [] = []
posts (posted http_req ∷ tr) = http_req ∷ posts tr
posts (_ ∷ tr) = posts tr

-- The arguments of a call.
pub record Invocation : Type 0 where
  pub context : Context
  pub method : String
  pub params : Any
  pub result : ResultParameter

module _ (json : Json) (d : ResponseDecoder) (net : Net) {A : Type 0} (dec : Decoder A)
    (options : List UnmarshalOption) where
  -- The client behind some calls.
  unfoldable pub after : List Invocation → Client → Client
  after [] c = c
  after (i ∷ more) c =
      after more (call json d net dec options c i.context i.method i.params i.result).0

  after_prev_id :
      (is : List Invocation) (c : Client)
      → c.prev_id < 2 ^ 32
      → ((after is c).prev_id ≡ (c.prev_id + length is) % 2 ^ 32)
  unfolding after call next_id
  after_prev_id [] c h = omega arith
  after_prev_id (i ∷ more) c h = omega (
    arith,
    after_prev_id more (call json d net dec options c i.context i.method i.params i.result).0
        (omega arith),
  )

  -- The HTTP requests that a call sends.
  abbrev pub sent_by : Client → Invocation → List HttpPost
  sent_by c i = posts ((call json d net dec options c i.context i.method i.params i.result).1 []).1

  abbrev request_of : Client → Invocation → Request × GoError
  request_of c i = new_call_request json (Net.uint32_value net (next_id c).0) i.method i.params

  abbrev pub post_of : Client → Request → HttpPost
  post_of c req = record {
    url = c.url;
    content_type = "application/json";
    body = (Net.encode_request net req).0 ++ 0x0a ∷ [];
  }

  -- A call sends nothing, or the request with the next ID.
  sent_by-cases :
      (c : Client) (i : Invocation)
      → (sent_by c i ≡ [])
        ⊎ ((sent_by c i ≡ post_of c (request_of c i).0 ∷ [])
            × ((request_of c i).0.id ≡ (Json.marshal json (Net.uint32_value net (next_id c).0)).0))
  unfolding call new_call_request
  sent_by-cases c i = ground arith

  ids_differ :
      (c : Client) (i : Invocation) (between : List Invocation)
      → c.prev_id < 2 ^ 32
      → suc (length between) < 2 ^ 32
      → ((next_id c).0 ≢ (next_id (after (i ∷ between) c)).0)
        × ((next_id c).0 < 2 ^ 32)
        × ((next_id (after (i ∷ between) c)).0 < 2 ^ 32)
  unfolding next_id
  ids_differ c i between h k =
      (λ e. omega (arith, after_prev_id (i ∷ between) c h, e), omega arith, omega arith)

  -- A call of a client, and another one of the next 2 ^ 32 - 1 calls, whatever the calls between
  -- them are and come to: if both send an HTTP request, each sends one, with a request in JSON as
  -- its body; and if `json.Marshal` gives different texts for different values of `uint32`, then
  -- these two requests have different IDs.
  pub ids_distinct :
      (c : Client) (i j : Invocation) (between : List Invocation)
      → c.prev_id < 2 ^ 32
      → suc (length between) < 2 ^ 32
      → ((m n : ℕ)
          → m < 2 ^ 32
          → n < 2 ^ 32
          → (Json.marshal json (Net.uint32_value net m)).0
            ≡ (Json.marshal json (Net.uint32_value net n)).0
          → m ≡ n)
      → sent_by c i ≢ []
      → sent_by (after (i ∷ between) c) j ≢ []
      → (req : Request) × ((req' : Request) × ((sent_by c i ≡ post_of c req ∷ [])
            × (sent_by (after (i ∷ between) c) j ≡ post_of (after (i ∷ between) c) req' ∷ [])
            × (req.id ≢ req'.id)))
  ids_distinct c i j between h k law some_post some_post' =
      let c' = after (i ∷ between) c in
      let (differ, small, small') = ids_differ c i between h k in
      elim (sent_by-cases c i) [
        | inl none_sent ↦ absurd (some_post none_sent)
        | inr (sent, id) ↦ elim (sent_by-cases c' j) [
          | inl none_sent ↦ absurd (some_post' none_sent)
          | inr (sent', id') ↦ (
            (request_of c i).0,
            (
              (request_of c' j).0,
              (sent, sent', λ e. differ (law _ _ small small' (sym id ∙ e ∙ id'))),
            ),
          )
        ]
      ]
