-- ===== src/Exchange/Many.antt =====
-- exchange.go: `exchangeMany`, the goroutines that handle the requests of a batch in any order.
pub mod Total
pub mod Safety
pub mod Termination
pub mod Answers
pub mod Matching
pub mod Handled
pub mod Logs
pub mod Errors
pub mod Secrecy
pub mod Run
mod Tests
use harpy.Prelude.{
  ℕ, zero, suc, ◌≡◌, Bool, true, false, List, [], ◌∷◌, Option, none, some, ◌==◌, if◌then◌else◌,
}
use harpy.Go.{Context, GoError, no_error, is_nil}
use harpy.Request.{Request, is_notification}
use harpy.Response.{Response}
use harpy.Exchange.Events.{
  write_batched, wrote, called, notified, logged_writer_error, logged_notification, logged_call,
  Trace, Environment,
}

-- Where a goroutine stands, with the local variables that are live there.
pub data Pc : Type 0 where
  ready : Pc  -- at the start of `exchangeOne`
  noting : (err : GoError) → Pc  -- before `LogNotification`
  answered : (res : Response) → Pc  -- before `LogCall`
  waiting : (res : Response) → Pc  -- before `m.Lock`
  holding : (res : Response) → Pc  -- behind `m.Lock`
  leaving : (err : GoError) → Pc  -- before the deferred `m.Unlock`
  failing : (err : GoError) → Pc  -- before `LogWriterError`
  returning : (err : GoError) → Pc  -- the function has returned to the error group

-- What the goroutines share: `ok`, the goroutine that holds the mutex, and the history of the
-- exchange.
pub record Shared : Type 0 where
  pub ok : Bool
  pub owner : Option ℕ
  pub trace : Trace

-- The goroutines by their position in the batch.
pub record System : Type 0 where
  pub shared : Shared
  pub pc : ℕ → Pc

abbrev pub request_at : List Request → ℕ → Option Request
request_at [] i = none
request_at (req ∷ more) zero = some req
request_at (req ∷ more) (suc i) = request_at more i

abbrev pub update : (ℕ → Pc) → ℕ → Pc → ℕ → Pc
update f i p j = if i == j then p else f j

module _ (env : Environment) where
  -- The next step of goroutine `i`, or `none` where it is blocked or has returned. The context is
  -- that of the error group, which may be canceled between any two steps.
  unfoldable pub advance : Context → ℕ → Request → Shared → Pc → Option (Shared × Pc)
  advance ctx i req s ready =
      if is_notification req
      then (let err = Environment.notify env s.trace ctx req in
          some (record s { trace = notified req err ∷ s.trace }, noting err))
      else (let res = Environment.call env s.trace ctx req in
          some (record s { trace = called req res ∷ s.trace }, answered res))
  advance ctx i req s (noting err) =
      some (record s { trace = logged_notification req err ∷ s.trace }, returning no_error)
  advance ctx i req s (answered res) =
      some (record s { trace = logged_call req res ∷ s.trace }, waiting res)
  advance ctx i req s (waiting res) = elim (s.owner) [
    | none ↦ some (record s { owner = some i }, holding res)
    | some j ↦ none
  ]
  advance ctx i req s (holding res) =
      if s.ok
      then (let err = Environment.write env s.trace (write_batched res) in
          some (
            record s { ok = is_nil err; trace = wrote (write_batched res) err ∷ s.trace },
            leaving err,
          ))
      else some (s, leaving no_error)
  advance ctx i req s (leaving err) =
      some (record s { owner = none }, if is_nil err then returning no_error else failing err)
  advance ctx i req s (failing err) =
      some (record s { trace = logged_writer_error err ∷ s.trace }, returning err)
  advance ctx i req s (returning err) = none

  module _ (requests : List Request) where
    -- A step of any one goroutine.
    pub data Step (sys : System) : System → Type 0 where
      pick :
          (ctx : Context) (i : ℕ) {req : Request} {s : Shared} {p : Pc}
          → request_at requests i ≡ some req
          → advance ctx i req sys.shared (sys.pc i) ≡ some (s, p)
          → Step sys (record { shared = s; pc = update sys.pc i p })

    abbrev pub start : Trace → System
    start tr = record { shared = record { ok = true; owner = none; trace = tr }; pc = λ i. ready }

    -- The states that the goroutines reach from the start, in any order of their steps.
    pub data Reach (tr : Trace) : System → Type 0 where
      here : Reach tr (start tr)
      next : {sys sys' : System} → Reach tr sys → Step sys sys' → Reach tr sys'
