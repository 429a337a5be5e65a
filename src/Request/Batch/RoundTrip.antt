-- ===== src/Request/Batch/RoundTrip.antt =====
-- request.go: a batch that `BatchRequestMarshaler` writes, and `UnmarshalRequestSet`.
use harpy.Prelude.{◌≡◌, ap, ◌∙◌, true, false, List, [], ◌∷◌, arith, All}
use harpy.Go.{Bytes, GoError, no_error, eof, returns}
use harpy.Go.Array.{array_text, entries}
use harpy.Go.Input.{skip_space}
use harpy.Go.Rune.{read_rune, is_space}
use harpy.Jsonx.{Reader}
use harpy.Request.{Request}
use harpy.Request.Set.{RequestDecoder, unmarshal_request_set}
use harpy.Request.Batch.{BatchRequestMarshaler, close}
use harpy.Request.Batch.Laws.{CanEncode, marshaler, marshal_all, texts, marshal_all-close}

-- All that is left to read is the text.
abbrev pub reader_of : Bytes → Reader
reader_of text = record { content = text; failure = eof }

module _ (json : Request → Bytes × GoError) (d : RequestDecoder) (req : Request)
    (more : List Request) where
  abbrev pub batch : List Request
  batch = req ∷ more

  pub read_array :
      RequestDecoder.many d true (reader_of (array_text (texts json batch))) ≡ (batch, no_error)
      → unmarshal_request_set d (reader_of (array_text (texts json batch)))
        ≡ (record { requests = batch; is_batch = true }, no_error)
  unfolding array_text entries unmarshal_request_set skip_space read_rune is_space
  read_array h = ground arith

  -- If each of the requests can be encoded, no write fails, and the decoder reads the JSON array of
  -- the encoded requests as these requests, then what marshaling one or more requests in turn and
  -- closing leaves on an empty target is read as the batch of these requests.
  pub marshal_all-unmarshal_request_set :
      All (CanEncode json) batch
      → RequestDecoder.many d true (reader_of (array_text (texts json batch))) ≡ (batch, no_error)
      → (m : BatchRequestMarshaler) × (marshal_all json batch (marshaler [] false false)
          ≡ returns (no_error, m))
        × ((close m).0 ≡ no_error)
        × (unmarshal_request_set d (reader_of (close m).1.target.content)
            ≡ (record { requests = batch; is_batch = true }, no_error))
  marshal_all-unmarshal_request_set all h =
      let (m, run, closed) = marshal_all-close json batch [] all in
      (
        m,
        run,
        ap (λ p. p.0) closed,
        ap
              (λ (p : GoError × BatchRequestMarshaler).
                unmarshal_request_set d (reader_of p.1.target.content))
              closed
            ∙ read_array h,
      )
