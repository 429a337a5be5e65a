-- ===== src/Exchange/Many/Run/Tests.antt =====
-- An exchange of a batch under a schedule, and the theorems about it.
use mathlib.Core.List.{Perm}
use harpy.Prelude.Text.{codes}
use harpy.Response.{success, response_id}
use harpy.Prelude.{
  SameItems, ◌≤◌, map, some, ℕ, zero, suc, ◌≡◌, refl, ◌≢◌, ◌⊎◌, true, List, [], ◌∷◌, ◌++◌, none,
  arith,
}
use harpy.Go.{GoError, no_error, plain}
use harpy.Request.{Request, is_notification, validate_server_side}
use harpy.Request.Set.{validate_set_server_side, validate_requests}
use harpy.Exchange.{exchange}
use harpy.Exchange.Closing.{Returns, closings}
use harpy.Exchange.Laws.{finish}
use harpy.Exchange.Events.{WriterCall, close_writer, Trace, Environment}
use harpy.Exchange.Many.{System, Step, advance, start, here}
use harpy.Exchange.Many.Safety.{failures}
use harpy.Exchange.Many.Errors.{first_write_error}
use harpy.Exchange.Many.Answers.{writes, AllReturned}
use harpy.Exchange.Many.Run.{Schedule, run, exchange_many}
use harpy.Exchange.Logs.{IsLogged}
use harpy.Exchange.Many.Matching.{written, given, calls_in}
use harpy.Exchange.Many.Handled.{handled, IsHonest}
use harpy.Exchange.Many.Termination.{steps}
use harpy.Exchange.Many.Run.Logs.{log_complete}
use harpy.Exchange.Many.Run.Matching.{exchange_batch_ids, exchange_batch_handled}
use harpy.Exchange.Many.Run.Completion.{schedule_completes, goroutines_end}
use harpy.Exchange.Many.Run.Laws.{exchange_closes_once, final}
use harpy.Samples.{sample_json, call_request, notify_request, success_response, background}

abbrev batch : List Request
batch = call_request ∷ notify_request ∷ call_request ∷ []

-- The second response cannot be written.
abbrev second_fails : Trace → WriterCall → GoError
second_fails tr close_writer = no_error
second_fails tr _ = elim (writes tr) [ zero ↦ no_error | suc n ↦ plain "broken pipe" ]

abbrev env : Environment
env = record {
  context = background;
  logger_failure = no_error;
  read = (record { requests = batch; is_batch = true }, no_error);
  call = λ tr ctx req. success_response;
  notify = λ tr ctx req. no_error;
  write = second_fails;
}

-- Six turns of a goroutine.
abbrev turns : ℕ → Schedule
turns i =
    (i, background)
    ∷ (i, background)
    ∷ (i, background)
    ∷ (i, background)
    ∷ (i, background)
    ∷ (i, background)
    ∷ []

abbrev schedule : Schedule
schedule = turns 2 ++ (turns 1 ++ turns 0)

batch_valid :
    validate_set_server_side sample_json (record { requests = batch; is_batch = true }) ≡ none
unfolding validate_set_server_side validate_requests validate_server_side
batch_valid = refl

batch_returns : AllReturned batch (final sample_json env schedule [] batch).pc
unfolding run advance is_notification
batch_returns = (refl, (refl, (refl, tt)))

exchange_closes_once_example :
    let r = exchange sample_json env (exchange_many schedule env) [] in
    Returns r.0 × (closings r.1 ≡ 1)
exchange_closes_once_example = exchange_closes_once sample_json env schedule []

exchange_batch_handled_example :
    let h = (final sample_json env schedule [] batch).shared.trace in
    (exchange sample_json env (exchange_many schedule env) []
      ≡ finish sample_json env (exchange_many schedule env) (first_write_error h) h)
    × IsHonest env h
    × SameItems (handled h) batch
    × ((failures h ≢ 0) ⊎ SameItems (written h) (given h))
exchange_batch_handled_example =
    exchange_batch_handled sample_json env schedule batch refl refl batch_valid (omega arith)
      batch_returns

goroutines_end_example :
    (steps env batch {tr = []} here ≤ 18)
    × (AllReturned batch (start env batch []).pc
        ⊎ ((sys' : System) × Step env batch (start env batch []) sys'))
goroutines_end_example = goroutines_end env batch {tr = []} here

schedule_completes_example :
    (schedule' : Schedule) × AllReturned batch (run env batch schedule' (start env batch [])).pc
schedule_completes_example = schedule_completes env batch {tr = []} here

-- The log of the exchange whose second response cannot be written.
log_complete_example : IsLogged (exchange sample_json env (exchange_many schedule env) []).1
log_complete_example = log_complete sample_json env schedule (λ h. batch_returns)

-- An exchanger that answers under the ID of the call, and a writer that does not fail.
abbrev echoing : Environment
echoing = record env {
  call = λ tr ctx req.
      success (record { version = "2.0"; request_id = req.id; result = some (codes "[1]") });
  write = λ tr op. no_error;
}

echoing_returns : AllReturned batch (final sample_json echoing schedule [] batch).pc
unfolding run advance is_notification
echoing_returns = (refl, (refl, (refl, tt)))

none_failed : failures (exchange sample_json echoing (exchange_many schedule echoing) []).1 ≡ 0
unfolding exchange exchange_many validate_set_server_side validate_requests validate_server_side
    advance is_notification
none_failed = refl

exchange_batch_ids_example :
    Perm
      (map response_id
        (written (exchange sample_json echoing (exchange_many schedule echoing) []).1))
      (map Request.id (calls_in batch))
exchange_batch_ids_example =
    exchange_batch_ids sample_json echoing schedule batch refl refl batch_valid (omega arith)
      echoing_returns (λ tr ctx req. refl) none_failed
