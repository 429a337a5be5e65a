-- ===== src/Exchange/Secrecy.antt =====
-- exchange.go: an exchange, and the one whose exchanger keeps its server-side errors to itself.
use harpy.Prelude.{
  ◌≡◌, refl, ap, ◌∙◌, true, false, List, [], ◌∷◌, map, arith, length, ltb, not, ◌||◌, Bool,
  Option-cases, none, Bool-cases, inl, inr, if◌then◌else◌,
}
use harpy.Go.{Context, GoError, no_error, is_nil, Outcome, returns, panics, Json}
use harpy.Request.{Request, is_notification}
use harpy.Request.Set.{RequestSet, zero_set, validate_set_server_side}
use harpy.Error.{to_error}
use harpy.Response.{new_native_error_response, Response, ErrorResponse, as_received}
use harpy.Exchange.{
  read_request_set, exchange_one, exchange_single, exchange_batch, exchange, exchange_body, report,
  close_after, first_request, same_error,
}
use harpy.Exchange.Events.{
  WriterCall, write_error, write_unbatched, write_batched, close_writer, Event, wrote, called,
  notified, logged_error, logged_notification, logged_call, logged_writer_error, pure, panic, log,
  ◌>>=◌, ◌>>◌, continue, Trace, Environment, M, writer,
}

-- What is left of a call of the writer, and of an event, without the server-side errors of the
-- exchanger's responses and without the errors of notifications.
abbrev pub blind_call : WriterCall → WriterCall
blind_call (write_unbatched res) = write_unbatched (as_received res)
blind_call (write_batched res) = write_batched (as_received res)
blind_call op = op

abbrev pub blind_event : Event → Event
blind_event (wrote op err) = wrote (blind_call op) err
blind_event (called req res) = called req (as_received res)
blind_event (notified req err) = notified req no_error
blind_event (logged_notification req err) = logged_notification req no_error
blind_event (logged_call req res) = logged_call req (as_received res)
blind_event event = event

abbrev pub blind : Trace → Trace
blind = map blind_event

-- The environment whose exchanger keeps these errors to itself.
abbrev pub discreet : Environment → Environment
discreet env = record env {
  call = λ tr ctx req. as_received (Environment.call env tr ctx req);
  notify = λ tr ctx req. no_error;
}

-- Neither the exchanger's answers, as they are sent, nor the results of writing depend on the
-- errors.
abbrev pub IsDiscreet : Environment → Type 0
IsDiscreet env =
    ((tr : Trace) (ctx : Context) (req : Request)
      → as_received (Environment.call env (blind tr) ctx req)
        ≡ as_received (Environment.call env tr ctx req))
    × ((tr : Trace) (op : WriterCall)
        → Environment.write env (blind tr) (blind_call op) ≡ Environment.write env tr op)

-- The first computation does on a history without the errors what the second does.
abbrev pub Follows : {A : Type 0} → M A → M A → Type 0
Follows m' m = (tr : Trace) → m' (blind tr) ≡ ((m tr).0, blind (m tr).1)

module _ {A B : Type 0} (k k' : A → M B) (q : (a : A) → Follows (k' a) (k a)) where
  continue-Follows :
      (r : Outcome A × Trace)
      → continue k' (r.0, blind r.1) ≡ ((continue k r).0, blind (continue k r).1)
  continue-Follows (returns a, tr) = q a tr
  continue-Follows (panics message, tr) = refl

  pub bind-Follows : (m m' : M A) → Follows m' m → Follows (m' >>= k') (m >>= k)
  bind-Follows m m' p tr = ap (continue k') (p tr) ∙ continue-Follows (m tr)

-- What follows on the writing of a response.
abbrev settle : GoError → M GoError
settle err = if is_nil err then pure no_error else (do log (logged_writer_error err); pure err)

settle-Follows : (err : GoError) → Follows (settle err) (settle err)
settle-Follows err tr = elim (Bool-cases (is_nil err)) [ inl e ↦ rw e refl | inr e ↦ rw e refl ]

module _ (json : Json) (env : Environment) (h : IsDiscreet env) where
  abbrev env' : Environment
  env' = discreet env

  abbrev answer : Request → Trace → Response
  answer req tr = Environment.call env tr (Environment.context env) req

  exchange_one-Follows :
      (req : Request) (w w' : Response → M GoError)
      → ((res : Response) → Follows (w' (as_received res)) (w res))
      → Follows (exchange_one json env' req w') (exchange_one json env req w)
  unfolding exchange_one
  exchange_one-Follows req w w' k tr = elim (Bool-cases (is_notification req)) [
    | inl n ↦ rw n refl
    | inr n ↦
        let res = answer req tr in
        let tr' : Trace = logged_call req res ∷ called req res ∷ tr in
        rw (n, h.0 tr (Environment.context env) req)
          (ap (continue settle) (k res tr')
            ∙ continue-Follows settle settle settle-Follows (w res tr'))
  ]

  writer-Follows : (op : WriterCall) → Follows (writer env' (blind_call op)) (writer env op)
  writer-Follows op tr = rw (h.1 tr op) refl

  exchange_single-Follows :
      (req : Request) → Follows (exchange_single json env' req) (exchange_single json env req)
  unfolding exchange_single
  exchange_single-Follows req =
      exchange_one-Follows req (λ res. writer env (write_unbatched res))
        (λ res. writer env' (write_unbatched res)) (λ res. writer-Follows (write_unbatched res))

  report-Follows : (res : ErrorResponse) → Follows (report json env' res) (report json env res)
  report-Follows res tr = rw (h.1 (logged_error res ∷ tr) (write_error res)) (
      settle-Follows (Environment.write env (logged_error res ∷ tr) (write_error res))
        (wrote (write_error res) _ ∷ logged_error res ∷ tr))

  -- An error response is reported, and what is returned then depends on the error of writing it.
  reporting :
      {A : Type 0} (res : ErrorResponse) (f : GoError → A)
      → Follows
          (report json env' res >>= λ err. pure (f err))
          (report json env res >>= λ err. pure (f err))
  reporting res f =
      bind-Follows (λ err. pure (f err)) (λ err. pure (f err)) (λ err tr. refl)
        (report json env res) (report json env' res) (report-Follows res)

  abbrev rejected : Environment → Outcome ErrorResponse → M (RequestSet × Bool × GoError)
  rejected e (panics message) = panic message
  rejected e (returns res) = do write_err ← report json e res; pure (zero_set, false, write_err)

  rejected-Follows : (o : Outcome ErrorResponse) → Follows (rejected env' o) (rejected env o)
  rejected-Follows (panics message) tr = refl
  rejected-Follows (returns res) tr = reporting res (λ err. (zero_set, false, err)) tr

  read_request_set-Follows : Follows (read_request_set json env') (read_request_set json env)
  unfolding read_request_set
  read_request_set-Follows tr =
      let (rs, err) = Environment.read env in
      elim (Bool-cases (is_nil err)) [
        | inl e ↦ elim (Option-cases (validate_set_server_side json rs)) [
          | inl v ↦ rw (e, v) refl
          | inr (x, v) ↦ rw (e, v) (rejected-Follows (new_native_error_response json none x) tr)
        ]
        | inr e ↦ elim (Bool-cases (same_error err (Context.err (Environment.context env)))) [
          | inl s ↦ rw (e, s) refl
          | inr s ↦ elim (Option-cases (to_error err)) [
            | inl o ↦ rw (e, s) (rw o (reporting _ (λ write_err. (zero_set, false, err)) tr))
            | inr (x, o) ↦
                rw (e, s) (rw o (reporting _ (λ write_err. (zero_set, false, write_err)) tr))
          ]
        ]
      ]

  module _ (many many' : List Request → M GoError)
      (follows : (reqs : List Request) → Follows (many' reqs) (many reqs)) where
    exchange_batch-Follows :
        (reqs : List Request)
        → Follows (exchange_batch json env' many' reqs) (exchange_batch json env many reqs)
    unfolding exchange_batch
    exchange_batch-Follows [] tr = refl
    exchange_batch-Follows (req ∷ []) tr =
        exchange_one-Follows req (λ res. writer env (write_batched res))
          (λ res. writer env' (write_batched res)) (λ res. writer-Follows (write_batched res)) tr
    exchange_batch-Follows (req ∷ req' ∷ more) tr =
        let two : ltb 1 (length (req ∷ req' ∷ more)) ≡ true = ground arith in
        rw two (follows (req ∷ req' ∷ more) tr)

    first_single-Follows :
        (reqs : List Request)
        → Follows
            (first_request reqs >>= exchange_single json env')
            (first_request reqs >>= exchange_single json env)
    first_single-Follows [] tr = refl
    first_single-Follows (req ∷ more) tr = exchange_single-Follows req tr

    -- What follows on reading the request set.
    abbrev handle :
        Environment → (List Request → M GoError) → RequestSet × Bool × GoError → M GoError
    handle e many_at (rs, ok, err) =
        if not ok || not (is_nil err)
        then pure err
        else if rs.is_batch
        then exchange_batch json e many_at rs.requests
        else (do req ← first_request rs.requests; exchange_single json e req)

    handle-Follows :
        (read : RequestSet × Bool × GoError)
        → Follows (handle env' many' read) (handle env many read)
    handle-Follows (rs, ok, err) tr = elim (Bool-cases (not ok || not (is_nil err))) [
      | inl e ↦ rw e refl
      | inr e ↦ elim (Bool-cases rs.is_batch) [
        | inl b ↦ rw (e, b) (exchange_batch-Follows rs.requests tr)
        | inr b ↦ rw (e, b) (first_single-Follows rs.requests tr)
      ]
    ]

    exchange_body-Follows : Follows (exchange_body json env' many') (exchange_body json env many)
    unfolding exchange_body
    exchange_body-Follows =
        bind-Follows (handle env many) (handle env' many') handle-Follows
          (read_request_set json env) (read_request_set json env') read_request_set-Follows

    close_after-Follows :
        (r : Outcome GoError × Trace)
        → close_after json env' (r.0, blind r.1)
          ≡ ((close_after json env r).0, blind (close_after json env r).1)
    close_after-Follows (returns err, tr) = ground (arith, h.1 tr close_writer)
    close_after-Follows (panics message, tr) = ground (arith, h.1 tr close_writer)

    pub exchange-Follows : Follows (exchange json env' many') (exchange json env many)
    unfolding exchange
    exchange-Follows tr = elim (Bool-cases (is_nil (Environment.logger_failure env))) [
      | inl e ↦ rw e (
          ap (close_after json env') (exchange_body-Follows tr)
          ∙ close_after-Follows (exchange_body json env many tr))
      | inr e ↦ rw e refl
    ]
