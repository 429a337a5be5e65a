-- ===== src/Http/Writer/Tests.antt =====
-- The theorems about the HTTP writer and reader at concrete data.
use harpy.Prelude.{◌≡◌, refl, List, [], ◌∷◌}
use harpy.Prelude.Text.{codes}
use harpy.Go.{Bytes, GoError, no_error}
use harpy.Go.Array.{array_text}
use harpy.Response.{Response}
use harpy.Http.Writer.Laws.{texts}
use harpy.Samples.{success_response}

abbrev encoded : Response → Bytes × GoError
encoded res = (codes "{}", no_error)

abbrev both : List Response
both = success_response ∷ success_response ∷ []

two_responses : array_text (texts encoded both) ≡ codes "[{}\n,{}\n]"
unfolding array_text
two_responses = refl
