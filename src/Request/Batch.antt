-- ===== src/Request/Batch.antt =====
-- request.go: `BatchRequestMarshaler`.
pub mod Laws
pub mod RoundTrip
use harpy.Prelude.{Bool, true, false, not, ◌≡◌, List, [], ◌∷◌, ◌++◌, if◌then◌else◌}
use harpy.Go.{Bytes, GoError, no_error, is_nil, Outcome, returns, panics}
use harpy.Go.Array.{open_array, close_array, comma}
use harpy.Go.Sink.{Sink, write, encode}
use harpy.Request.{Request}

-- `started` says that `encoder` is not nil, and `encoder_failure` is the error that it keeps:
-- behind a failed write, `Encode` writes nothing and returns that error again.
pub record BatchRequestMarshaler : Type 0 where
  pub target : Sink
  pub started : Bool
  pub encoder_failure : GoError
  pub closed : Bool

module _ (json : Request → Bytes × GoError) where
  unfoldable pub marshal_request :
      Request → BatchRequestMarshaler → Outcome (GoError × BatchRequestMarshaler)
  unfolding encode
  marshal_request req m =
      if m.closed
      then panics "marshaler has been closed"
      else let sep = if m.started then comma else open_array in
        let (err, s) = write sep m.target in
        let opened : BatchRequestMarshaler = record m { target = s; started = true } in
        if not (is_nil err)
        then returns (err, opened)
        else if not (is_nil m.encoder_failure)
        then returns (m.encoder_failure, opened)
        else let (failure, s') = encode (json req) s in
          let kept = if is_nil (json req).1 then failure else no_error in
          returns (failure, record opened { target = s'; encoder_failure = kept })

unfoldable pub close : BatchRequestMarshaler → GoError × BatchRequestMarshaler
unfolding write
close m =
    let (err, s) = write close_array m.target in
    if not m.started
    then (no_error, record m { closed = true })
    else (err, record m { target = s; closed = true })
