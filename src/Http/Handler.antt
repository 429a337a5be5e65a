-- ===== src/Http/Handler.antt =====
-- transport/httptransport/handler.go and logging.go: `Handler`, an exchange with the reader and the
-- writer of this transport.
pub mod Laws
pub mod Writes
pub mod Batch
pub mod Refusals
pub mod Answered
pub mod Secrecy
mod Tests
use mathlib.Core.List.{foldl}
use harpy.Prelude.{false, String, List, [], ◌∷◌, Option, none, some, not, if◌then◌else◌}
use harpy.Go.{Bytes, Context, GoError, no_error, error_text, is_nil, Outcome, returns, panics, Json}
use harpy.Request.{Request}
use harpy.Request.Set.{RequestDecoder}
use harpy.Response.{Response}
use harpy.Exchange.{exchange}
use harpy.Exchange.Events.{
  WriterCall, write_error, write_unbatched, write_batched, close_writer, wrote, Trace, Environment,
  M,
}
use harpy.Http.Reader
use harpy.Http.Reader.{HttpRequest}
use harpy.Http.Target.{Target}
use harpy.Http.Writer
use harpy.Http.Writer.{ResponseWriter}

-- The `Exchanger`, which may keep state: its answers depend on what has happened in the exchange.
pub record Exchanger : Type 0 where
  pub call : Trace → Context → Request → Response
  pub notify : Trace → Context → Request → GoError

-- The function `new_logger`, if there is one, makes a logger from the remote address of a request.
pub record Handler (Logger : Type 0) : Type 0 where
  pub exchanger : Exchanger
  pub new_logger : Option (String → Logger)

abbrev pub HandlerOption : Type 0 → Type 0
HandlerOption Logger = Handler Logger → Handler Logger

-- The arguments are `zap.NewProduction`, and `With` for the field "remote_addr" followed by
-- `NewZapExchangeLogger`.
module _ {Zap Logger : Type 0} (new_production : Zap × GoError)
    (with_remote_addr : Zap → String → Logger) where
  unfoldable pub with_zap_logger : Zap → HandlerOption Logger
  with_zap_logger logger h = record h { new_logger = some (with_remote_addr logger) }

  unfoldable pub new_handler : Exchanger → List (HandlerOption Logger) → Outcome (Handler Logger)
  unfolding with_zap_logger
  new_handler e options =
      let h = foldl (λ h opt. opt h) (record { exchanger = e; new_logger = none }) options in
      let (logger, err) = new_production in
      elim (Handler.new_logger h) [
        | some _ ↦ returns h
        | none ↦
            if not (is_nil err) then panics (error_text err) else returns (with_zap_logger logger h)
      ]

-- The call of a method of the response writer.
unfoldable pub apply_call :
    (Response → Bytes × GoError) → WriterCall → ResponseWriter → GoError × ResponseWriter
apply_call encode (write_error res) w = Writer.write_error encode res w
apply_call encode (write_unbatched res) w = Writer.write_unbatched encode res w
apply_call encode (write_batched res) w = Writer.write_batched encode res w
apply_call encode close_writer w = Writer.close w

-- The response writer behind the calls of an exchange.
unfoldable pub writer_after : (Response → Bytes × GoError) → ResponseWriter → Trace → ResponseWriter
unfolding apply_call
writer_after encode w [] = w
writer_after encode w (wrote op err ∷ tr) = (apply_call encode op (writer_after encode w tr)).1
writer_after encode w (_ ∷ tr) = writer_after encode w tr

-- `encode` is `json.Marshal` on responses. The other arguments are those of `RequestSetReader`, the
-- context of the request, and `exchangeMany` at an environment.
module _ (json : Json) (d : RequestDecoder) (parse_media_type : String → String × GoError)
    (encode : Response → Bytes × GoError) (ctx : Context)
    (many : Environment → List Request → M GoError) where
  -- `&ResponseWriter{Target: t}`
  abbrev pub new_writer : Target → ResponseWriter
  new_writer t = record { target = t; has_response = false; array_open = false }

  -- The parties of the exchange. The logger is not nil.
  abbrev pub environment : Exchanger → HttpRequest → Target → Environment
  environment e r t = record {
    context = ctx;
    logger_failure = no_error;
    read = Reader.read d parse_media_type r;
    call = Exchanger.call e;
    notify = Exchanger.notify e;
    write = λ tr op. (apply_call encode op (writer_after encode (new_writer t) tr)).0;
  }

  -- `ServeHTTP`: the exchange, and the target behind it. The error of the exchange is dropped.
  unfoldable pub serve_http :
      {Logger : Type 0} → Handler Logger → HttpRequest → Target → Outcome GoError × Target
  unfolding writer_after
  serve_http h r t =
      let env = environment (Handler.exchanger h) r t in
      let (o, tr) = exchange json env (many env) [] in
      (o, (writer_after encode (new_writer t) tr).target)
