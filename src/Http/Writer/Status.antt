-- ===== src/Http/Writer/Status.antt =====
-- transport/httptransport/writer.go: which HTTP status goes with which error.
use harpy.Prelude.{◌≤◌, ◌<◌, ◌≡◌, ◌↔◌, ◌⊎◌, false, arith}
use harpy.ErrorCode.{is_reserved, parse_error_code, invalid_request_code, invalid_parameters_code}
use harpy.Response.{ErrorInfo}
use harpy.Http.Writer.{http_status_from_error}

-- The status is 200 exactly for the codes outside the reserved range. For the reserved ones it is a
-- client error or a server error: a client error (4xx) exactly for "parse error", "invalid request"
-- and "invalid parameters".
pub http_status_classes :
    (e : ErrorInfo)
    → let status = http_status_from_error e in
      ((status ≡ 200) ↔ (is_reserved e.code ≡ false))
      × ((status ≡ 200) ⊎ ((400 ≤ status) × (status < 600)))
      × (((400 ≤ status) × (status < 500)) ↔ (
          (e.code ≡ parse_error_code)
          ⊎ ((e.code ≡ invalid_request_code) ⊎ (e.code ≡ invalid_parameters_code))))
unfolding http_status_from_error
http_status_classes e = ground arith
