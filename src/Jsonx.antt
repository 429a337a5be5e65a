-- ===== src/Jsonx.antt =====
-- internal/jsonx: options for unmarshaling, and the test for a parse error. json.go has the option.
pub mod Laws
use mathlib.Core.List.{foldl}
use text.Mathlib.Text.{starts_with}
use harpy.Prelude.{Bool, true, false, not, List}
use harpy.Go.{
  Bytes, GoError, no_error, canceled, deadline_exceeded, eof, syntax_error, unmarshal_type_error,
  plain, wrapped, native, error_text,
}

pub record UnmarshalOptions : Type 0 where
  pub allow_unknown_fields : Bool

abbrev pub UnmarshalOption : Type 0
UnmarshalOption = UnmarshalOptions → UnmarshalOptions

-- `AllowUnknownFields`
unfoldable pub allow_unknown_fields : Bool → UnmarshalOption
allow_unknown_fields allow opts = record opts { allow_unknown_fields = allow }

-- The options applied in order to the zero value.
unfoldable pub apply_options : List UnmarshalOption → UnmarshalOptions
apply_options = foldl (λ opts fn. fn opts) (record { allow_unknown_fields = false })

-- What is left to read: the bytes, then the error that ends them (`io.EOF` at the end of the data).
pub record Reader : Type 0 where
  pub content : Bytes
  pub failure : GoError

-- `Decoder.Decode` of `encoding/json` into a value of type `A`. The flag says that
-- `DisallowUnknownFields` has been called on the decoder.
abbrev pub Decoder {ℓ} : Type ℓ → Type ℓ
Decoder A = (disallow_unknown : Bool) → Reader → A × GoError

unfoldable pub decode {ℓ} : {A : Type ℓ} → Decoder A → Reader → List UnmarshalOption → A × GoError
unfolding apply_options
decode dec r options = dec (not (UnmarshalOptions.allow_unknown_fields (apply_options options))) r

-- `Unmarshal`
unfoldable pub unmarshal {ℓ} : {A : Type ℓ} → Decoder A → Bytes → List UnmarshalOption → A × GoError
unfolding decode
unmarshal dec b options = decode dec (record { content = b; failure = eof }) options

-- `IsParseError`
unfoldable pub is_parse_error : GoError → Bool
is_parse_error no_error = false
is_parse_error (syntax_error m) = true
is_parse_error (unmarshal_type_error m) = true
is_parse_error err = starts_with (error_text err) "json:"
