-- ===== src/ErrorCode/Tests.antt =====
-- Tests of error codes, and the theorem about their classes at a concrete code.
use harpy.Prelude.{◌≡◌, refl}
use harpy.Prelude.Int.{pos, neg}
use harpy.Prelude.Text.{int_text}
use harpy.ErrorCode.{code_text, describe_error}

descriptions :
    (describe_error (neg 32601) "" ≡ "[-32601] method not found")
    × (describe_error (neg 32602) "no key" ≡ "[-32602] invalid parameters: no key")
    × (describe_error (pos 100) "no such key" ≡ "[100] no such key")
unfolding describe_error code_text int_text
descriptions = (refl, refl, refl)
