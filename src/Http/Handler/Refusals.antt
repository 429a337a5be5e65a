-- ===== src/Http/Handler/Refusals.antt =====
-- transport/httptransport/handler.go: what an HTTP client receives for a request that is refused.
use harpy.Prelude.{
  ◌≡◌, refl, ap, ◌≢◌, ◌⊎◌, inl, inr, ◌∙◌, String, str_eq, str_eq_iff, true, List, [], ◌∷◌, ◌++◌,
  none, arith, if◌then◌else◌,
}
use harpy.Error.{to_error}
use harpy.Go.{Bytes, Context, GoError, no_error, canceled, returns, Json}
use harpy.Request.{Request}
use harpy.Request.Set.{RequestDecoder}
use harpy.Response.{Response, failure, new_error_response}
use harpy.Exchange.{exchange, same_error}
use harpy.Exchange.Laws.{after_write, finish, exchange_unreadable}
use harpy.Exchange.Events.{write_error, logged_error, Environment, M}
use harpy.Http.Reader
use harpy.Http.Reader.{HttpRequest, read_lem}
use harpy.Http.Writer
use harpy.Http.Writer.{error_status}
use harpy.Http.Writer.Laws.{CanEncode, fresh, answer, error_sent}
use harpy.Http.Handler.{Handler, writer_after}
use harpy.Http.Handler.Laws.{served, served_once, env}

-- An error of this package is not that of a context.
same_error-to_error : (a b : GoError) → same_error a b ≡ true → to_error a ≡ none
same_error-to_error canceled b h = refl
same_error-to_error a b h = ground arith

module _ (json : Json) (d : RequestDecoder) (parse_media_type : String → String × GoError)
    (encode : Response → Bytes × GoError) (ctx : Context)
    (many : Environment → List Request → M GoError) {Logger : Type 0} (h : Handler Logger)
    (r : HttpRequest) where
  abbrev parties : Environment
  parties = env json d parse_media_type encode ctx many h r

  -- A request set whose reading fails with an error of this package: the exchange answers it.
  exchange_refused :
      (Reader.read d parse_media_type r).1 ≢ no_error
      → to_error (Reader.read d parse_media_type r).1 ≢ none
      → let res = new_error_response json none (Reader.read d parse_media_type r).1 in
        exchange json parties (many parties) []
        ≡ finish json parties
            (many parties)
            (Environment.write parties (logged_error res ∷ []) (write_error res))
            (after_write json parties (many parties) (write_error res) (logged_error res ∷ []))
  exchange_refused failed known =
      elim (exchange_unreadable json parties (many parties) refl [] failed) [
        | inl (same, run) ↦ absurd (known (same_error-to_error _ _ same))
        | inr (inl (other, native, run)) ↦ run
        | inr (inr (other, foreign, run)) ↦ absurd (known foreign)
      ]

  -- One that cannot be read, with an error of this package, is answered with that error, followed
  -- by a line feed, with the status of the error, which is 400 at least.
  serve_unreadable :
      (Reader.read d parse_media_type r).1 ≢ no_error
      → to_error (Reader.read d parse_media_type r).1 ≢ none
      → CanEncode encode
          (failure (new_error_response json none (Reader.read d parse_media_type r).1))
      → let res = new_error_response json none (Reader.read d parse_media_type r).1 in
        served json d parse_media_type encode ctx many h r
        ≡ (returns no_error, answer (error_status res) ((encode (failure res)).0 ++ 0x0a ∷ []))
  unfolding writer_after
  serve_unreadable failed known encodes =
      let res = new_error_response json none (Reader.read d parse_media_type r).1 in
      let (e, c, t, low, high) = error_sent encode res encodes in
      served_once json d parse_media_type encode ctx many h r (write_error res)
        (logged_error res ∷ []) (Writer.write_error encode res fresh).1 refl (ground (arith, e)) c
        (exchange_refused failed known)
      ∙ ap (λ t. (returns no_error, t)) t

  -- The request does not use POST, or its media type cannot be parsed, or it is not that of JSON.
  abbrev pub IsRefused : Type 0
  IsRefused =
      (r.method ≢ "POST")
      ⊎ (((parse_media_type r.content_type).1 ≢ no_error)
          ⊎ ((parse_media_type r.content_type).0 ≢ "application/json"))

  read-IsRefused :
      IsRefused
      → ((Reader.read d parse_media_type r).1 ≢ no_error)
        × (to_error (Reader.read d parse_media_type r).1 ≢ none)
  unfolding Reader.read
  read-IsRefused refused = ground (
    arith,
    str_eq_iff r.method "POST",
    str_eq_iff (parse_media_type r.content_type).0 "application/json",
  )

  status_refused :
      IsRefused
      → error_status (new_error_response json none (Reader.read d parse_media_type r).1)
        ≡ (if str_eq r.method "POST" then 415 else 405)
  status_refused refused =
      ground (arith, read_lem d parse_media_type json r, str_eq_iff r.method "POST")

  -- If the error response to the error of reading can be encoded and no write fails, an HTTP
  -- request that does not use POST is answered with status 405, and one that does and whose media
  -- type cannot be parsed or is not "application/json" with status 415: with the JSON content type,
  -- and with that response, followed by a line feed. The exchange ends without an error.
  pub serve_refused :
      IsRefused
      → CanEncode encode
          (failure (new_error_response json none (Reader.read d parse_media_type r).1))
      → let res = new_error_response json none (Reader.read d parse_media_type r).1 in
        served json d parse_media_type encode ctx many h r ≡ (
          returns no_error,
          answer
              (if str_eq r.method "POST" then 415 else 405)
              ((encode (failure res)).0 ++ 0x0a ∷ []),
        )
  serve_refused refused encodes =
      let (failed, known) = read-IsRefused refused in
      let status = status_refused refused in
      let done = serve_unreadable failed known encodes in ground arith
