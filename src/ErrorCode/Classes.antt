-- ===== src/ErrorCode/Classes.antt =====
-- errorcode.go: how the predefined codes, the reserved codes and the descriptions relate.
use harpy.Prelude.{true, false, ◌≡◌, ◌↔◌, arith, str_eq_iff}
use harpy.ErrorCode.{ErrorCode, is_reserved, is_predefined, code_text}

-- Every code that the specification predefines lies in the reserved range.
pub is_predefined-is_reserved : (c : ErrorCode) → is_predefined c ≡ true → is_reserved c ≡ true
unfolding is_predefined is_reserved
is_predefined-is_reserved c h = ground arith

-- The description is "unknown error" for exactly the codes outside the reserved range, and
-- "undefined reserved error" for exactly the reserved codes that are not predefined.
pub code_text-classes :
    (c : ErrorCode)
    → ((code_text c ≡ "unknown error") ↔ (is_reserved c ≡ false))
      × ((code_text c ≡ "undefined reserved error")
          ↔ ((is_reserved c ≡ true) × (is_predefined c ≡ false)))
unfolding code_text is_predefined
code_text-classes c = ground (
  arith,
  str_eq_iff "parse error" "unknown error",
  str_eq_iff "invalid request" "unknown error",
  str_eq_iff "method not found" "unknown error",
  str_eq_iff "invalid parameters" "unknown error",
  str_eq_iff "internal server error" "unknown error",
  str_eq_iff "undefined reserved error" "unknown error",
  str_eq_iff "parse error" "undefined reserved error",
  str_eq_iff "invalid request" "undefined reserved error",
  str_eq_iff "method not found" "undefined reserved error",
  str_eq_iff "invalid parameters" "undefined reserved error",
  str_eq_iff "internal server error" "undefined reserved error",
  str_eq_iff "unknown error" "undefined reserved error",
)
