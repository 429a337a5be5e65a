-- ===== src/Http/Routed/Tests.antt =====
-- Theorems about a server with a router at a concrete batch.
use mathlib.Core.List.{Perm}
use harpy.Prelude.{
  ℕ, ◌==◌, if◌then◌else◌, ◌∷◌, ◌++◌, ap, ◌∙◌, ◌≡◌, ◌≢◌, arith, refl, true, List, [], map, none,
  some, All,
}
use harpy.Go.{Any, Bytes, RawMessage, GoError, Context, Json, raw_bytes, no_error}
use harpy.Go.Input.{skip_space}
use harpy.Go.Rune.{read_rune, is_space}
use harpy.Jsonx.{Reader}
use harpy.Request.{Request, is_notification}
use harpy.Request.Set.{unmarshal_request_set}
use harpy.Response.Laws.{IsResponseId, IsValidResponse}
use harpy.Response.{ErrorInfo, Response, success, failure, response_id, null_if_nil}
use harpy.Router.{Router, lookup}
use harpy.Exchange.Many.{advance}
use harpy.Exchange.Many.Answers.{AllReturned}
use harpy.Exchange.Many.Matching.{calls_in}
use harpy.Exchange.Many.Run.{run, exchange_many}
use harpy.Exchange.Many.Run.Laws.{final}
use harpy.Http.Reader
use harpy.Http.Reader.{HttpRequest}
use harpy.Http.Writer
use harpy.Http.Writer.Laws.{target, texts}
use harpy.Http.Handler.{writer_after, serve_http}
use harpy.Http.Handler.Batch.{env}
use harpy.Http.Routed.{routed}
use harpy.Http.RoundTrip.{delivered}
use harpy.Http.Routed.Messages.{message_of, KeepsTexts}
use harpy.Http.Routed.Received.{ReadsReply, routed_batch_received}
use harpy.Go.Array.{array_text, entries, close_array, comma}
use harpy.ErrorCode.{internal_error_code}
use harpy.Response.Set.{
  ResponseSet, SuccessOrErrorResponse, ResponseDecoder, unmarshal_response_set,
  validate_response_set,
}
use harpy.Router.Answers.{LacksResult}
use harpy.Http.Routed.Samples.{
  router, unchecked, no_logger, parsed, post, batch, schedule, batch_valid,
}
use harpy.Samples.{sample_json, sample_decoder, sample_response_decoder, background}

-- A small encoding of responses: a letter for a success or a failure, the first byte of the ID, and
-- that of the result.
abbrev first_byte : RawMessage → ℕ
first_byte none = b'n'
first_byte (some []) = 0
first_byte (some (c ∷ rest)) = c

abbrev letter : Response → ℕ
letter (success res) = b's'
letter (failure res) = b'f'

abbrev result_byte : Response → ℕ
result_byte (success res) = first_byte res.result
result_byte (failure res) = b'n'

abbrev spelled : Response → Bytes × GoError
spelled res = (letter res ∷ first_byte (response_id res) ∷ result_byte res ∷ [], no_error)

abbrev canonical : RawMessage → RawMessage
canonical raw = some (first_byte raw ∷ [])

abbrev said : ErrorInfo → ErrorInfo
said info = record { code = internal_error_code; message = ""; info_data = none }

abbrev zero_info : ErrorInfo
zero_info = record { code = internal_error_code; message = ""; info_data = none }

abbrev message : ℕ → ℕ → ℕ → SuccessOrErrorResponse
message l c x =
    if l == b's'
    then record {
      version = "2.0";
      request_id = some (c ∷ []);
      result = some (x ∷ []);
      error = none;
    }
    else record {
      version = "2.0";
      request_id = some (c ∷ []);
      result = none;
      error = some zero_info;
    }

-- Each element stands behind "[" or ",", and before a line feed.
abbrev elements : Bytes → List SuccessOrErrorResponse
elements (separator ∷ l ∷ c ∷ x ∷ line_feed ∷ rest) = message l c x ∷ elements rest
elements _ = []

abbrev decoder : ResponseDecoder
decoder = record sample_response_decoder { many = λ strict r. (elements r.content, no_error) }

-- An element is read as the response that it has been made of.
abbrev sent : Response → SuccessOrErrorResponse
sent res = message_of sample_json canonical said res

same_byte : (raw : RawMessage) → first_byte (null_if_nil raw) ≡ first_byte raw
same_byte none = refl
same_byte (some text) = refl

sent-elements :
    (separator : ℕ) (res : Response) (rest : Bytes)
    → IsValidResponse sample_json res
    → elements (separator ∷ ((spelled res).0 ++ 0x0a ∷ rest)) ≡ sent res ∷ elements rest
sent-elements separator (success res) rest valid =
    ground (arith, same_byte res.request_id, same_byte res.result)
sent-elements separator (failure res) rest valid = ground (arith, same_byte res.request_id)

elements-entries :
    (separator : ℕ) (ress : List Response)
    → All (IsValidResponse sample_json) ress
    → elements (entries (separator ∷ []) (texts spelled ress) ++ close_array) ≡ map sent ress
unfolding entries
elements-entries separator [] valid = refl
elements-entries separator (res ∷ more) valid =
    sent-elements separator res (entries comma (texts spelled more) ++ close_array) valid.0
    ∙ ap (λ rest. sent res ∷ rest) (elements-entries b',' more valid.1)

keeps_id :
    (raw : RawMessage) → IsResponseId sample_json raw → IsResponseId sample_json (canonical raw)
keeps_id none h = absurd (h.0 refl)
keeps_id (some []) h = absurd (h.0 refl)
keeps_id (some (c ∷ rest)) h = (λ e. cc, h.1, h.2)

keeps_texts : KeepsTexts sample_json canonical said
keeps_texts = (λ raw h. cc, keeps_id)

reads-batch :
    Reader.read sample_decoder parsed post
    ≡ (record { requests = batch; is_batch = true }, no_error)
unfolding Reader.read unmarshal_request_set skip_space read_rune is_space
reads-batch = refl

batch_returns :
    AllReturned batch
      (final sample_json
        (env sample_json sample_decoder parsed spelled background schedule
          (routed sample_json unchecked router no_logger)
          post)
        schedule
        []
        batch).pc
unfolding run advance is_notification writer_after Writer.write_batched
batch_returns = (refl, (refl, tt))

marshal_full :
    (v : Any)
    → (Json.marshal sample_json v).1 ≡ no_error
    → raw_bytes (Json.marshal sample_json v).0 ≢ []
marshal_full v h = ground arith

never_nil :
    (ctx : Context) (req : Request)
    → ¬ LacksResult ctx req (lookup req.method (Router.routes router))
unfolding lookup
never_nil ctx req = ground arith

ids_full : All (λ req. req.id ≢ some []) batch
ids_full = ground arith

has_call : calls_in batch ≢ []
unfolding is_notification
has_call = ground arith

reads_reply :
    ReadsReply sample_json unchecked router no_logger sample_decoder parsed spelled background
      schedule post batch
      (λ tr ctx req m. refl)
      reads-batch
      batch_valid
      (λ two. batch_returns)
      decoder
      canonical
      said
unfolding array_text
reads_reply [] some_response valid encoded same = absurd (some_response refl)
reads_reply (res ∷ more) some_response valid encoded same =
    ap (λ (body : Reader). (elements body.content, no_error)) same
    ∙ ap (λ messages. (messages, no_error)) (elements-entries b'[' (res ∷ more) valid)

routed_batch_received_example :
    (rs : ResponseSet) × (unmarshal_response_set decoder
        (delivered
          (serve_http sample_json sample_decoder parsed spelled background
            (exchange_many schedule)
            (routed sample_json unchecked router no_logger)
            post
            (target none none [])).1).body
      ≡ (rs, no_error))
    × (rs.is_batch ≡ true)
    × (validate_response_set sample_json rs ≡ no_error)
    × Perm (map response_id rs.responses) (map canonical (map Request.id (calls_in batch)))
routed_batch_received_example =
    routed_batch_received sample_json unchecked router no_logger sample_decoder parsed spelled
      background schedule post batch (λ tr ctx req m. refl) reads-batch batch_valid
      (λ two. batch_returns) decoder canonical said marshal_full never_nil ids_full has_call
      reads_reply keeps_texts
