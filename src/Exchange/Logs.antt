-- ===== src/Exchange/Logs.antt =====
-- exchange.go: the log entries that the events of an exchange call for, and those that it has made.
use harpy.Prelude.{Bool, List, [], ◌∷◌, arith, if◌then◌else◌, SameItems}
use harpy.Go.{GoError, is_nil, Json}
use harpy.Request.{Request}
use harpy.Response.{Response, ErrorResponse}
use harpy.Exchange.Events.{
  write_error, write_unbatched, write_batched, Event, wrote, called, notified, logged_error,
  logged_writer_error, logged_notification, logged_call, Trace, Environment, M,
}
use harpy.Exchange.Laws.{after_write, finish}

-- A failed call of the writer calls for an entry about its error, an error response for one about
-- the request set, and each answer of the exchanger for one about the request.
abbrev pub due : Trace → List Event
due [] = []
due (wrote (write_error res) err ∷ tr) =
    if is_nil err
    then logged_error res ∷ due tr
    else logged_writer_error err ∷ logged_error res ∷ due tr
due (wrote op err ∷ tr) = if is_nil err then due tr else logged_writer_error err ∷ due tr
due (called req res ∷ tr) = logged_call req res ∷ due tr
due (notified req err ∷ tr) = logged_notification req err ∷ due tr
due (_ ∷ tr) = due tr

-- The calls of the logger.
abbrev pub entries : Trace → List Event
entries [] = []
entries (wrote op err ∷ tr) = entries tr
entries (called req res ∷ tr) = entries tr
entries (notified req err ∷ tr) = entries tr
entries (entry ∷ tr) = entry ∷ entries tr

-- The log has the entries that are called for, each as often, in some order.
abbrev pub IsLogged : Trace → Type 0
IsLogged tr = SameItems (entries tr) (due tr)

module _ (json : Json) (env : Environment) (many : List Request → M GoError) where
  pub finish-IsLogged :
      (err : GoError) (tr : Trace) → IsLogged tr → IsLogged (finish json env many err tr).1
  finish-IsLogged err tr h p = let k = h p in ground arith

  -- An error response that is written is logged before.
  pub report-IsLogged :
      (res : ErrorResponse) (tr : Trace)
      → IsLogged tr
      → IsLogged (after_write json env many (write_error res) (logged_error res ∷ tr))
  report-IsLogged res tr h p = let k = h p in ground arith

  pub answer-IsLogged :
      (req : Request) (res : Response) (is_batch : Bool) (tr : Trace)
      → IsLogged tr
      → let op = if is_batch then write_batched res else write_unbatched res in
        IsLogged (after_write json env many op (logged_call req res ∷ called req res ∷ tr))
  answer-IsLogged req res is_batch tr h p = let k = h p in ground arith
