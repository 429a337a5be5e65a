-- ===== src/Jsonx/Laws.antt =====
-- internal/jsonx/unmarshal.go and json.go: which option counts.
use mathlib.Core.List.{foldl-append}
use harpy.Prelude.{◌≡◌, refl, Bool, not, List, [], ◌∷◌, ◌++◌}
use harpy.Jsonx.{UnmarshalOption, Reader, Decoder, allow_unknown_fields, decode}

-- Without options unknown fields are disallowed. Of several options the last one decides, whatever
-- stands before it.
pub decode_options {ℓ} :
    {A : Type ℓ} (dec : Decoder A) (r : Reader) (options : List UnmarshalOption) (allow : Bool)
    → (decode dec r [] ≡ dec Bool.true r)
      × (decode dec r (options ++ allow_unknown_fields allow ∷ []) ≡ dec (not allow) r)
unfolding decode allow_unknown_fields
decode_options dec r options allow = (refl, rw foldl-append)
