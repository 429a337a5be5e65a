-- ===== src/Http/Writer.antt =====
-- transport/httptransport/writer.go: `ResponseWriter`.
pub mod Status
pub mod Laws
mod Tests
use harpy.Prelude.{
  ℕ, Bool, true, false, not, str_eq, List, [], ◌∷◌, ◌++◌, none, some, ◌==◌, if◌then◌else◌,
}
use harpy.Prelude.Int.{eqb_ℤ}
use harpy.ErrorCode.{
  is_reserved, parse_error_code, invalid_request_code, invalid_parameters_code,
  method_not_found_code,
}
use harpy.Go.{Bytes, GoError, no_error, is_nil}
use harpy.Go.Array.{open_array, close_array, comma}
use harpy.Response.{ErrorInfo, ErrorResponse, Response, success, failure}
use harpy.Http.{media_type, incorrect_http_method, incorrect_media_type}
use harpy.Http.Target.{Target, set_content_type, write_header, write, encode}

pub record ResponseWriter : Type 0 where
  pub target : Target
  pub has_response : Bool
  pub array_open : Bool

-- `httpStatusFromError`
unfoldable pub http_status_from_error : ErrorInfo → ℕ
unfolding is_reserved
http_status_from_error err =
    if not (is_reserved err.code)
    then 200
    else if eqb_ℤ err.code parse_error_code
    then 400
    else if eqb_ℤ err.code invalid_request_code
    then if str_eq err.message incorrect_http_method
      then 405
      else if str_eq err.message incorrect_media_type
      then 415
      else 400
    else if eqb_ℤ err.code invalid_parameters_code
    then 400
    else if eqb_ℤ err.code method_not_found_code
    then 501
    else 500

-- The status of `WriteError` and that of `WriteUnbatched`.
abbrev pub error_status : ErrorResponse → ℕ
error_status res =
    let status = http_status_from_error res.error in if status == 200 then 500 else status

abbrev pub unbatched_status : Response → ℕ
unbatched_status (success res) = 200
unbatched_status (failure res) = http_status_from_error res.error

write_headers : ℕ → ResponseWriter → ResponseWriter
unfolding set_content_type write_header
write_headers status w = record w {
  target = write_header status (set_content_type media_type w.target);
}

-- The text of a response, or the error of `json.Marshal`.
module _ (json : Response → Bytes × GoError) where
  write_response : Response → ResponseWriter → GoError × ResponseWriter
  unfolding encode
  write_response res w =
      let (err, t) = encode (json res) w.target in
      (err, record w { target = t; has_response = true })

  unfoldable pub write_error : ErrorResponse → ResponseWriter → GoError × ResponseWriter
  unfolding write_response write_headers http_status_from_error
  write_error res w = write_response (failure res) (write_headers (error_status res) w)

  unfoldable pub write_unbatched : Response → ResponseWriter → GoError × ResponseWriter
  unfolding write_response write_headers http_status_from_error
  write_unbatched res w = write_response res (write_headers (unbatched_status res) w)

  unfoldable pub write_batched : Response → ResponseWriter → GoError × ResponseWriter
  unfolding write_response write_headers write
  write_batched res w =
      let opened : ResponseWriter =
        if not w.array_open then record (write_headers 200 w) { array_open = true } else w in
      let separator = if not w.array_open then open_array else comma in
      let (err, t) = write separator opened.target in
      let separated : ResponseWriter = record opened { target = t } in
      if not (is_nil err) then (err, separated) else write_response res separated

unfoldable pub close : ResponseWriter → GoError × ResponseWriter
unfolding write write_header
close w =
    if w.array_open
    then (let (err, t) = write close_array w.target in (err, record w { target = t }))
    else if not w.has_response
    then (no_error, record w { target = write_header 204 w.target })
    else (no_error, w)
