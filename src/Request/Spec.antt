-- ===== src/Request/Spec.antt =====
-- What a conforming request is, said apart from the code that checks it.
use harpy.Prelude.{◌≡◌, ◌⊎◌, [], ◌∷◌, map}
use harpy.Prelude.Text.{codes}
use harpy.Go.{
  Bytes, RawMessage, raw_bytes, no_error, Dynamic, string_value, float64_value, nil_value, Json,
}
use harpy.Request.{Request, lower}

-- A JSON string, number or null, or nothing at all.
abbrev pub IsIdType : Dynamic → Type 0
IsIdType d = (d ≡ string_value) ⊎ ((d ≡ float64_value) ⊎ (d ≡ nil_value))

abbrev pub IsId : Json → RawMessage → Type 0
IsId json id =
    (raw_bytes id ≡ [])
    ⊎ (((Json.unmarshal_any json id).1 ≡ no_error) × IsIdType (Json.unmarshal_any json id).0)

-- The text opens an array or an object, and goes on.
abbrev pub Opens : Bytes → Type 0
Opens (c ∷ d ∷ rest) = (c ≡ b'{') ⊎ (c ≡ b'[')
Opens _ = ⊥

-- Nothing, `null` in any case of its letters, or what opens as an array or an object.
abbrev pub IsParameters : Bytes → Type 0
IsParameters b = (b ≡ []) ⊎ ((map lower b ≡ codes "null") ⊎ Opens b)

pub record IsValid (json : Json) (r : Request) : Type 0 where
  pub versioned : r.version ≡ "2.0"
  pub identified : IsId json r.id
  pub structured : IsParameters (raw_bytes r.parameters)
