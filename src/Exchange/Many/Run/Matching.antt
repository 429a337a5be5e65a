-- ===== src/Exchange/Many/Run/Matching.antt =====
-- exchange.go: the responses that an exchange of a batch writes, and the calls in the batch.
use mathlib.Core.List.{Perm}
use harpy.Prelude.{
  ℕ, zero, suc, ◌≢◌, ◌⊎◌, inl, inr, SameItems, ◌<◌, ◌≡◌, refl, true, List, [], map, none, arith,
  length,
}
use harpy.Go.{RawMessage-discrete, no_error, GoError, Json}
use harpy.Request.{Request}
use harpy.Request.Set.{validate_set_server_side}
use harpy.Response.{response_id}
use harpy.Exchange.{exchange}
use harpy.Exchange.Events.{Trace, Environment}
use harpy.Exchange.Laws.{finish}
use harpy.Exchange.Many.{here}
use harpy.Exchange.Many.Safety.{failures}
use harpy.Exchange.Many.Errors.{first_write_error}
use harpy.Exchange.Many.Answers.{AllReturned}
use harpy.Exchange.Many.Matching.{written, given, calls_in, Agrees, each_matched, responses_matched}
use harpy.Exchange.Many.Handled.{handled, IsHonest, Reach-IsHonest, each_handled}
use harpy.Exchange.Many.Run.{Schedule, exchange_many}
use harpy.Exchange.Many.Run.Laws.{final, run-Reach, exchange_batch_final}

zero-cases : (n : ℕ) → (n ≡ 0) ⊎ (n ≢ 0)
zero-cases zero = inl refl
zero-cases (suc n) = inr (omega arith)

module _ (json : Json) (env : Environment) (schedule : Schedule) (requests : List Request) where
  written-finish :
      (err : GoError) (tr : Trace)
      → written (finish json env (exchange_many schedule env) err tr).1 ≡ written tr
  written-finish err tr = ground arith

  failures-finish :
      (err : GoError) (tr : Trace)
      → failures (finish json env (exchange_many schedule env) err tr).1 ≡ 0
      → failures tr ≡ 0
  failures-finish err tr h = ground arith

  -- A valid batch of two or more requests, in whatever order their goroutines run until all have
  -- returned, whose calls the exchanger answers under their IDs: if no call of the writer fails,
  -- then the IDs of the responses that the exchange writes are, in some order, those of the calls
  -- in the batch.
  pub exchange_batch_ids :
      Environment.logger_failure env ≡ no_error
      → Environment.read env ≡ (record { requests = requests; is_batch = true }, no_error)
      → validate_set_server_side json (Environment.read env).0 ≡ none
      → 1 < length requests
      → AllReturned requests (final json env schedule [] requests).pc
      → Agrees response_id Request.id env
      → failures (exchange json env (exchange_many schedule env) []).1 ≡ 0
      → Perm
          (map response_id (written (exchange json env (exchange_many schedule env) []).1))
          (map Request.id (calls_in requests))
  exchange_batch_ids l r v two all agrees none_failed =
      let h = (final json env schedule [] requests).shared.trace in
      let e = exchange_batch_final json env schedule [] requests l r v two refl in
      rw (e, written-finish (first_write_error h) h)
        (responses_matched env requests RawMessage-discrete response_id Request.id agrees
          (run-Reach env requests schedule here) all
          (failures-finish (first_write_error h) h (rw e at none_failed)))

  -- A valid batch of two or more requests, read by an exchange that has a logger, in whatever order
  -- their goroutines run until all have returned: the exchanger is called with calls and notified
  -- of notifications only, the requests that it is given are those of the batch, and each answer is
  -- the one that it gives to that request. Unless a call of the writer fails, the responses that
  -- are written are those that it has given to the calls. Both times each occurs equally often, as
  -- any test of them tells. Then the writer is closed, and the result is the error of the first
  -- write that has failed, or else that of closing.
  pub exchange_batch_handled :
      Environment.logger_failure env ≡ no_error
      → Environment.read env ≡ (record { requests = requests; is_batch = true }, no_error)
      → validate_set_server_side json (Environment.read env).0 ≡ none
      → 1 < length requests
      → AllReturned requests (final json env schedule [] requests).pc
      → let h = (final json env schedule [] requests).shared.trace in
        (exchange json env (exchange_many schedule env) []
          ≡ finish json env (exchange_many schedule env) (first_write_error h) h)
        × IsHonest env h
        × SameItems (handled h) requests
        × ((failures h ≢ 0) ⊎ SameItems (written h) (given h))
  exchange_batch_handled l r v two all =
      let reach = run-Reach env requests schedule here in
      let (posed, delivered) = each_matched env requests reach all in
      (
        exchange_batch_final json env schedule [] requests l r v two refl,
        Reach-IsHonest env requests reach,
        each_handled env requests reach all,
        elim (zero-cases (failures (final json env schedule [] requests).shared.trace)) [
          | inl e ↦ inr (delivered e)
          | inr e ↦ inl e
        ],
      )
