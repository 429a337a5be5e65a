-- ===== src/Exchange/Many/Run/Logs.antt =====
-- exchange.go: the log of an exchange.
use harpy.Prelude.{
  ◌<◌, ◌≡◌, ◌≢◌, refl, ap, Bool, true, false, List, [], ◌∷◌, none, arith, length, Option-cases,
  Bool-cases, inl, inr, if◌then◌else◌,
}
use harpy.Error.{as_error}
use harpy.Go.{GoError, no_error, no_error-cases, Json}
use harpy.Request.{Request, is_notification}
use harpy.Request.Set.{validate_set_server_side}
use harpy.Request.Set.Laws.{IsCounted, validate_set_server_side_iff}
use harpy.Response.{ErrorResponse, new_error_response}
use harpy.Exchange.{exchange}
use harpy.Exchange.Events.{
  Trace, Environment, M, write_error, logged_error, logged_notification, notified, logged_call,
  called, write_batched, write_unbatched,
}
use harpy.Exchange.Laws.{
  exchange_notification, exchange_call, exchange_invalid, exchange_unreadable,
  read_failure_response, finish, after_write,
}
use harpy.Exchange.Logs.{IsLogged, finish-IsLogged, report-IsLogged, answer-IsLogged}
use harpy.Exchange.Many.{here}
use harpy.Exchange.Many.Errors.{first_write_error}
use harpy.Exchange.Many.Answers.{AllReturned}
use harpy.Exchange.Many.Logs.{Reach-IsLogged}
use harpy.Exchange.Many.Run.{Schedule, exchange_many}
use harpy.Exchange.Many.Run.Laws.{final, run-Reach, exchange_batch_final}

abbrev nothing_logged : IsLogged []
nothing_logged p = refl

module _ (json : Json) (env : Environment) (schedule : Schedule) where
  open env use {logger_failure, read, write, call, notify, context}

  abbrev many : List Request → M GoError
  many = exchange_many schedule env

  -- The log behind the exchange is complete.
  abbrev Logged : Type 0
  Logged = IsLogged (exchange json env many []).1

  Logged-finish :
      (err : GoError) (tr : Trace)
      → IsLogged tr
      → exchange json env many [] ≡ finish json env many err tr
      → Logged
  Logged-finish err tr h e = rw e (finish-IsLogged json env many err tr h)

  -- A set that is refused with an error response.
  Logged-report :
      (err : GoError) (res : ErrorResponse)
      → exchange json env many []
        ≡ finish json env many err
            (after_write json env many (write_error res) (logged_error res ∷ []))
      → Logged
  Logged-report err res =
      Logged-finish err (after_write json env many (write_error res) (logged_error res ∷ []))
        (report-IsLogged json env many res [] nothing_logged)

  Logged-no_logger : logger_failure ≢ no_error → Logged
  unfolding exchange
  Logged-no_logger bad p = ground arith

  module _ (logged : logger_failure ≡ no_error) where
    Logged-unreadable : read.1 ≢ no_error → Logged
    Logged-unreadable bad = elim (exchange_unreadable json env many logged [] bad) [
      | inl (_, e) ↦ Logged-finish read.1 [] nothing_logged e
      | inr (inl (_, _, e)) ↦
          let res = new_error_response json none read.1 in
          Logged-report (write (logged_error res ∷ []) (write_error res)) res e
      | inr (inr (_, _, e)) ↦ Logged-report read.1 (read_failure_response read.1) e
    ]

    Logged-one :
        (req : Request) (is_batch : Bool)
        → read ≡ (record { requests = req ∷ []; is_batch = is_batch }, no_error)
        → validate_set_server_side json read.0 ≡ none
        → Logged
    Logged-one req is_batch r v = elim (Bool-cases (is_notification req)) [
      | inl n ↦
          let err = notify [] context req in
          Logged-finish no_error (logged_notification req err ∷ notified req err ∷ []) (λ p. refl)
            (exchange_notification json env many logged req is_batch [] r v n)
      | inr n ↦
          let res = call [] context req in
          let tr : Trace = logged_call req res ∷ called req res ∷ [] in
          let op = if is_batch then write_batched res else write_unbatched res in
          Logged-finish (write tr op) (after_write json env many op tr)
            (answer-IsLogged json env many req res is_batch [] nothing_logged)
            (exchange_call json env many logged req is_batch [] r v n)
    ]

    Logged-read :
        (requests : List Request) (is_batch : Bool)
        → read ≡ (record { requests = requests; is_batch = is_batch }, no_error)
        → validate_set_server_side json read.0 ≡ none
        → IsCounted (record { requests = requests; is_batch = is_batch })
        → (1 < length requests → AllReturned requests (final json env schedule [] requests).pc)
        → Logged
    Logged-read [] is_batch r v c all = absurd (ground arith)
    Logged-read (req ∷ []) is_batch r v c all = Logged-one req is_batch r v
    Logged-read (req ∷ req' ∷ more) false r v c all = absurd (ground arith)
    Logged-read (req ∷ req' ∷ more) true r v c all =
        let requests : List Request = req ∷ req' ∷ more in
        let h = (final json env schedule [] requests).shared.trace in
        Logged-finish (first_write_error h) h
          (Reach-IsLogged env requests (run-Reach env requests schedule here) nothing_logged
            (all (ground arith)))
          (exchange_batch_final json env schedule [] requests logged r v (ground arith) refl)

  -- In every exchange, in whatever order the goroutines of a batch run until all have returned, the
  -- log has exactly the entries that are called for, in some order: for each call and each
  -- notification of the exchanger one with the request and the answer, for each error response that
  -- is written one with that response, and for each failed call of the writer one with its error.
  pub log_complete :
      (1 < length read.0.requests
        → AllReturned read.0.requests (final json env schedule [] read.0.requests).pc)
      → IsLogged (exchange json env (exchange_many schedule env) []).1
  log_complete all = elim (no_error-cases logger_failure) [
    | inr (_, bad) ↦ Logged-no_logger bad
    | inl good ↦ elim (no_error-cases read.1) [
      | inr (_, bad) ↦ Logged-unreadable good bad
      | inl r ↦ elim (Option-cases (validate_set_server_side json read.0)) [
        | inr (e, invalid) ↦
            let res = new_error_response json none (as_error e) in
            Logged-report (write (logged_error res ∷ []) (write_error res)) res
              (exchange_invalid json env many good [] r invalid)
        | inl valid ↦
            Logged-read good read.0.requests read.0.is_batch (ap (λ err. (read.0, err)) r) valid
              ((validate_set_server_side_iff json read.0).0 valid).0 all
      ]
    ]
  ]
