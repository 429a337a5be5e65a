-- ===== src/Http/Reader.antt =====
-- transport/httptransport/reader.go: `RequestSetReader`.
use harpy.Prelude.{
  refl, ◌≡◌, ◌≢◌, ◌⊎◌, not, ◌||◌, String, str_eq, str_eq_iff, [], ◌∷◌, none, arith, if◌then◌else◌,
}
use harpy.ErrorCode.{invalid_request_code}
use harpy.Error.{as_error, new_error, with_message}
use harpy.Go.{GoError, no_error, is_nil, Json}
use harpy.Jsonx.{Reader}
use harpy.Request.Set.{RequestSet, zero_set, RequestDecoder, unmarshal_request_set}
use harpy.Response.{new_error_response}
use harpy.Http.{media_type, incorrect_http_method, incorrect_media_type}
use harpy.Http.Writer.{http_status_from_error}

-- `http.Request`, as far as it is read. The content type is the text of the header, or empty.
pub record HttpRequest : Type 0 where
  pub method : String
  pub content_type : String
  pub body : Reader

status_of_method :
    (json : Json)
    → http_status_from_error
        (new_error_response json none (
          as_error
            (new_error invalid_request_code (with_message incorrect_http_method ∷ [])))).error
      ≡ 405
unfolding new_error_response http_status_from_error new_error with_message
status_of_method json = refl

status_of_media_type :
    (json : Json)
    → http_status_from_error
        (new_error_response json none (
          as_error (new_error invalid_request_code (with_message incorrect_media_type ∷ [])))).error
      ≡ 415
unfolding new_error_response http_status_from_error new_error with_message
status_of_media_type json = refl

-- The argument `parse_media_type` is `mime.ParseMediaType`: the media type, and the error.
module _ (d : RequestDecoder) (parse_media_type : String → String × GoError) where
  unfoldable pub read : HttpRequest → RequestSet × GoError
  read r =
      let (mt, err) = parse_media_type r.content_type in
      if not (str_eq r.method "POST")
      then (
        zero_set,
        as_error (new_error invalid_request_code (with_message incorrect_http_method ∷ [])),
      )
      else if not (is_nil err) || not (str_eq mt media_type)
      then (
        zero_set,
        as_error (new_error invalid_request_code (with_message incorrect_media_type ∷ [])),
      )
      else unmarshal_request_set d r.body

  -- A request that does not use POST is refused before its body is read, and the error that the
  -- client gets has the HTTP status 405. One whose media type cannot be parsed or is not
  -- "application/json" is refused with status 415. Of any other the body is read.
  pub read_lem :
      (json : Json) (r : HttpRequest)
      → let status = http_status_from_error (new_error_response json none (read r).1).error in
        let (mt, err) = parse_media_type r.content_type in
        ((r.method ≢ "POST") × ((read r).0 ≡ zero_set) × (status ≡ 405))
        ⊎ (((r.method ≡ "POST")
              × ((err ≢ no_error) ⊎ (mt ≢ "application/json"))
              × ((read r).0 ≡ zero_set)
              × (status ≡ 415))
            ⊎ ((r.method ≡ "POST")
                × (err ≡ no_error)
                × (mt ≡ "application/json")
                × (read r ≡ unmarshal_request_set d r.body)))
  unfolding read
  read_lem json r = ground (
    arith,
    str_eq_iff r.method "POST",
    str_eq_iff (parse_media_type r.content_type).0 "application/json",
    status_of_method json,
    status_of_media_type json,
  )
