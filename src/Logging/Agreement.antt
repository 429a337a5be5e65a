-- ===== src/Logging/Agreement.antt =====
-- logging.go: the loggers for zap and for slog.
use mathlib.Core.Path.{fun_ext}
use harpy.Prelude.{◌≡◌, ap, sym, ◌∙◌, String, map, Option, arith}
use harpy.Prelude.Int.{ℤ}
use harpy.Go.{GoError}
use harpy.Request.{Request}
use harpy.Response.{Response, success, failure, ErrorResponse}
use harpy.Logging.{
  StructuredExchangeLogger, AttributePackage, Entry, info, error, log_error, log_writer_error,
  log_notification, log_call, new_zap_exchange_logger, new_slog_exchange_logger,
}

-- An entry with its attributes shown in another form.
abbrev pub show : {A B : Type 0} → (A → B) → Entry A → Entry B
show f (info m attrs) = info m (map f attrs)
show f (error m attrs) = error m (map f attrs)

module _ {A B : Type 0} (f : A → B) (l : StructuredExchangeLogger A) (span : Option String) where
  abbrev shown : StructuredExchangeLogger B
  shown = record {
    int = λ n v. f (StructuredExchangeLogger.int l n v);
    string = λ n v. f (StructuredExchangeLogger.string l n v);
  }

  show-log_error : (res : ErrorResponse) → show f (log_error l span res) ≡ log_error shown span res
  unfolding log_error
  show-log_error res = ground arith

  show-log_writer_error :
      (err : GoError) → show f (log_writer_error l span err) ≡ log_writer_error shown span err
  unfolding log_writer_error
  show-log_writer_error err = ground arith

  show-log_notification :
      (req : Request) (err : GoError)
      → show f (log_notification l span req err) ≡ log_notification shown span req err
  unfolding log_notification
  show-log_notification req err = ground arith

  show-log_call :
      (req : Request) (res : Response)
      → show f (log_call l span req res) ≡ log_call shown span req res
  unfolding log_call
  show-log_call req (success res) = ground arith
  show-log_call req (failure res) = ground arith

module _ {Field Attr AnyAttr Shown : Type 0} (zap : AttributePackage Field)
    (slog : AttributePackage Attr) (convert : Attr → AnyAttr) (show_zap : Field → Shown)
    (show_slog : AnyAttr → Shown)
    (ints : (n : String) (v : ℤ)
      → show_zap (AttributePackage.make_int zap n v)
        ≡ show_slog (convert (AttributePackage.make_int slog n v)))
    (strings : (n v : String)
      → show_zap (AttributePackage.make_string zap n v)
        ≡ show_slog (convert (AttributePackage.make_string slog n v))) where
  abbrev for_zap : StructuredExchangeLogger Field
  for_zap = new_zap_exchange_logger zap

  abbrev for_slog : StructuredExchangeLogger AnyAttr
  for_slog = new_slog_exchange_logger convert slog

  shown-same : (span : Option String) → shown show_zap for_zap span ≡ shown show_slog for_slog span
  unfolding new_zap_exchange_logger new_slog_exchange_logger
  shown-same span i = record {
    int = fun_ext (λ n. fun_ext (λ v. ints n v)) i;
    string = fun_ext (λ n. fun_ext (λ v. strings n v)) i;
  }

  -- If the attributes of zap and those of slog show the same for the same name and value, then the
  -- two loggers make entries of the same level and message, whose attributes show the same in the
  -- same order, in each of the four methods of a logger.
  pub loggers_agree :
      (span : Option String) (req : Request) (res : Response) (refused : ErrorResponse)
      (err : GoError)
      → (show show_zap (log_error for_zap span refused)
          ≡ show show_slog (log_error for_slog span refused))
        × (show show_zap (log_writer_error for_zap span err)
            ≡ show show_slog (log_writer_error for_slog span err))
        × (show show_zap (log_notification for_zap span req err)
            ≡ show show_slog (log_notification for_slog span req err))
        × (show show_zap (log_call for_zap span req res)
            ≡ show show_slog (log_call for_slog span req res))
  loggers_agree span req res refused err =
      let same = shown-same span in
      (
        show-log_error show_zap for_zap span refused
            ∙ ap (λ l. log_error l span refused) same
            ∙ sym (show-log_error show_slog for_slog span refused),
        show-log_writer_error show_zap for_zap span err
            ∙ ap (λ l. log_writer_error l span err) same
            ∙ sym (show-log_writer_error show_slog for_slog span err),
        show-log_notification show_zap for_zap span req err
            ∙ ap (λ l. log_notification l span req err) same
            ∙ sym (show-log_notification show_slog for_slog span req err),
        show-log_call show_zap for_zap span req res
            ∙ ap (λ l. log_call l span req res) same
            ∙ sym (show-log_call show_slog for_slog span req res),
      )
