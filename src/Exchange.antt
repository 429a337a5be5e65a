-- ===== src/Exchange.antt =====
-- exchange.go: one exchange, from reading a request set to closing the writer.
pub mod Events
pub mod Laws
pub mod Closing
pub mod Logs
pub mod Secrecy
pub mod Many
mod Tests
use harpy.Prelude.{
  ℕ, Bool, true, false, not, ◌||◌, List, [], ◌∷◌, none, some, length, ltb, if◌then◌else◌,
}
use harpy.ErrorCode.{internal_error_code}
use harpy.Error.{as_error, to_error, new_error, with_message, with_cause}
use harpy.Go.{
  Context, GoError, no_error, canceled, deadline_exceeded, is_nil, Outcome, returns, panics, Json,
}
use harpy.Request.{Request, is_notification}
use harpy.Request.Set.{RequestSet, zero_set, validate_set_server_side}
use harpy.Response.{Response, ErrorResponse, new_error_response, new_native_error_response}
use Events.{
  WriterCall, write_error, write_unbatched, write_batched, close_writer, Event, wrote, logged_error,
  logged_writer_error, logged_notification, logged_call, Trace, Environment, M, pure, panic, ◌>>=◌,
  ◌>>◌, log, writer, call_exchanger, notify_exchanger,
}

-- `readErr == ctx.Err()` for an error that is not nil: the error of a context is `Canceled` or
-- `DeadlineExceeded`, if it is not nil.
abbrev pub same_error : GoError → GoError → Bool
same_error canceled canceled = true
same_error deadline_exceeded deadline_exceeded = true
same_error _ _ = false

-- `requests[0]`
abbrev pub first_request : List Request → M Request
first_request [] = panic "index out of range"
first_request (req ∷ more) = pure req

module _ (json : Json) (env : Environment) where
  -- What `readRequestSet` does with an error response: log it, write it, and log an error of
  -- writing.
  abbrev report : ErrorResponse → M GoError
  report res = do
    log (logged_error res)
    err ← writer env (write_error res)
    if is_nil err then pure no_error else (do log (logged_writer_error err); pure err)

  -- The request set, `ok` and the error.
  unfoldable pub read_request_set : M (RequestSet × Bool × GoError)
  unfolding new_error with_message with_cause
  read_request_set =
      let (rs, read_err) = Environment.read env in
      if not (is_nil read_err)
      then if same_error read_err (Context.err (Environment.context env))
        then pure (zero_set, false, read_err)
        else elim (to_error read_err) [
          | some _ ↦ (do
            write_err ← report (new_error_response json none read_err)
            pure (zero_set, false, write_err))
          | none ↦ (do
            _ ← report (
                new_error_response json none (
                  as_error (
                    new_error internal_error_code
                      (with_message "unable to read JSON-RPC request" ∷ with_cause read_err ∷ []))))
            pure (zero_set, false, read_err))
        ]
      else elim (validate_set_server_side json rs) [
        | some err ↦ elim (new_native_error_response json none err) [
          | panics message ↦ panic message
          | returns res ↦ (do write_err ← report res; pure (zero_set, false, write_err))
        ]
        | none ↦ pure (rs, true, no_error)
      ]

  unfoldable pub exchange_one : Request → (Response → M GoError) → M GoError
  exchange_one req w =
      if is_notification req
      then (do err ← notify_exchanger env req; log (logged_notification req err); pure no_error)
      else (do
        res ← call_exchanger env req
        log (logged_call req res)
        err ← w res
        if is_nil err then pure no_error else (do log (logged_writer_error err); pure err))

  unfoldable pub exchange_single : Request → M GoError
  unfolding exchange_one
  exchange_single req = exchange_one req (λ res. writer env (write_unbatched res))

  -- The argument `many` is `exchangeMany` at this environment.
  unfoldable pub exchange_batch : (List Request → M GoError) → List Request → M GoError
  unfolding exchange_one
  exchange_batch many requests = if ltb 1 (length requests) then many requests else (do
    req ← first_request requests
    exchange_one req (λ res. writer env (write_batched res)))

  -- `Exchange` up to its deferred function.
  exchange_body : (List Request → M GoError) → M GoError
  unfolding read_request_set exchange_batch exchange_single
  exchange_body many = do
    (rs, ok, err) ← read_request_set
    (if not ok || not (is_nil err)
        then pure err
        else if rs.is_batch
        then exchange_batch many rs.requests
        else (do req ← first_request rs.requests; exchange_single req))

  -- The deferred function: it closes the writer, and puts its error in the place of a nil one.
  abbrev close_after : Outcome GoError × Trace → Outcome GoError × Trace
  close_after (o, tr) =
      let err = Environment.write env tr close_writer in
      if is_nil err then (o, wrote close_writer err ∷ tr) else (
        elim o [
          | panics message ↦ panics message
          | returns earlier ↦ returns (if is_nil earlier then err else earlier)
        ],
        logged_writer_error err ∷ wrote close_writer err ∷ tr,
      )

  unfoldable pub exchange : (List Request → M GoError) → M GoError
  unfolding exchange_body
  exchange many tr =
      if not (is_nil (Environment.logger_failure env))
      then (returns (Environment.logger_failure env), tr)
      else close_after (exchange_body many tr)
