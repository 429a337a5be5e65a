-- ===== src/Go/Sink.antt =====
-- An `io.Writer` as its user sees it: what has been written, and what the next writes will return.
use harpy.Prelude.{not, ℕ, zero, suc, List, [], ◌∷◌, ◌++◌, if◌then◌else◌}
use harpy.Go.{Bytes, GoError, no_error, is_nil}

-- A write takes the next fault: on a nil error all bytes are written, otherwise as many as the
-- fault says. Past the end of the list every write succeeds.
pub record Sink : Type 0 where
  pub content : Bytes
  pub faults : List (ℕ × GoError)

abbrev pub take_bytes : ℕ → Bytes → Bytes
take_bytes zero b = []
take_bytes (suc n) [] = []
take_bytes (suc n) (c ∷ b) = c ∷ take_bytes n b

abbrev write_under : Bytes → Bytes → List (ℕ × GoError) → GoError × Sink
write_under content b [] = (no_error, record { content = content ++ b; faults = [] })
write_under content b ((n, err) ∷ faults) = (
  err,
  record {
    content = if is_nil err then content ++ b else content ++ take_bytes n b;
    faults = faults;
  },
)

-- `Write`
unfoldable pub write : Bytes → Sink → GoError × Sink
write b s = write_under s.content b s.faults

-- `Encoder.Encode` of `encoding/json`, which marshals first, and then writes the text and a line
-- feed at once. The argument is what marshaling gives.
unfoldable pub encode : Bytes × GoError → Sink → GoError × Sink
unfolding write
encode (text, err) s = if not (is_nil err) then (err, s) else write (text ++ 0x0a ∷ []) s
