-- ===== src/Exchange/Events.antt =====
-- exchange.go: the parties of an exchange, as answers to the history of the exchange so far, and
-- the steps in which `Exchange` deals with them.
use harpy.Prelude.{String, List, ◌∷◌}
use harpy.Go.{Context, GoError, Outcome, returns, panics}
use harpy.Request.{Request}
use harpy.Request.Set.{RequestSet}
use harpy.Response.{Response, ErrorResponse}

-- The methods of `ResponseWriter`.
pub data WriterCall : Type 0 where
  write_error : ErrorResponse → WriterCall
  write_unbatched : Response → WriterCall
  write_batched : Response → WriterCall
  close_writer : WriterCall

-- What has happened: a call of the writer with its result, a call of the exchanger with its result,
-- and the four methods of `ExchangeLogger`.
pub data Event : Type 0 where
  wrote : WriterCall → GoError → Event
  called : Request → Response → Event
  notified : Request → GoError → Event
  logged_error : ErrorResponse → Event
  logged_writer_error : GoError → Event
  logged_notification : Request → GoError → Event
  logged_call : Request → Response → Event

-- The newest event stands first.
abbrev pub Trace : Type 0
Trace = List Event

-- The `Exchanger`, the `RequestSetReader` and the `ResponseWriter`. They may keep state of any
-- kind: what they answer depends on all that has happened. `logger_failure` is the error of the
-- logger that `Exchange` makes if it is given none.
pub record Environment : Type 0 where
  pub context : Context
  pub logger_failure : GoError
  pub read : RequestSet × GoError
  pub call : Trace → Context → Request → Response
  pub notify : Trace → Context → Request → GoError
  pub write : Trace → WriterCall → GoError

-- A step of the exchange: it goes on from a history, and returns or panics.
abbrev pub M : Type 0 → Type 0
M A = Trace → Outcome A × Trace

abbrev pub pure : {A : Type 0} → A → M A
pure a tr = (returns a, tr)

abbrev pub panic : {A : Type 0} → String → M A
panic message tr = (panics message, tr)

abbrev pub continue : {A B : Type 0} → (A → M B) → Outcome A × Trace → Outcome B × Trace
continue f (returns a, tr) = f a tr
continue f (panics message, tr) = (panics message, tr)

infixl 5 ◌>>=◌ ◌>>◌
abbrev pub ◌>>=◌ : {A B : Type 0} → M A → (A → M B) → M B
◌>>=◌ m f tr = continue f (m tr)

abbrev pub ◌>>◌ : {B : Type 0} → M (Unit {0}) → M B → M B
m >> k = m >>= λ _. k

-- A call of a method of the logger.
abbrev pub log : Event → M (Unit {0})
log event tr = (returns tt, event ∷ tr)

module _ (env : Environment) where
  abbrev pub writer : WriterCall → M GoError
  writer op tr = let err = Environment.write env tr op in (returns err, wrote op err ∷ tr)

  abbrev pub call_exchanger : Request → M Response
  call_exchanger req tr =
      let res = Environment.call env tr (Environment.context env) req in
      (returns res, called req res ∷ tr)

  abbrev pub notify_exchanger : Request → M GoError
  notify_exchanger req tr =
      let err = Environment.notify env tr (Environment.context env) req in
      (returns err, notified req err ∷ tr)
