-- ===== src/Http/Target.antt =====
-- `http.ResponseWriter` of `net/http`, as far as the transport uses it.
use harpy.Prelude.{ℕ, String, [], ◌∷◌, ◌++◌, not, Option, none, some, if◌then◌else◌}
use harpy.Go.{Bytes, GoError, is_nil}
use harpy.Go.Sink
use harpy.Go.Sink.{Sink}

-- The header "Content-Type" as it is set so far; the status and that header as they were sent; and
-- the body.
pub record Target : Type 0 where
  pub content_type : Option String
  pub sent : Option (ℕ × Option String)
  pub body : Sink

-- `Header().Set("Content-Type", …)`
unfoldable pub set_content_type : String → Target → Target
set_content_type value t = record t { content_type = some value }

-- `WriteHeader`: the first call sends the headers, and a later one changes nothing.
unfoldable pub write_header : ℕ → Target → Target
write_header status t = record t {
  sent = elim (t.sent) [ none ↦ some (status, t.content_type) | some s ↦ some s ];
}

-- `Write`, which sends the headers with status 200 if they have not been sent.
unfoldable pub write : Bytes → Target → GoError × Target
unfolding Sink.write write_header
write b t =
    let (err, body) = Sink.write b t.body in (err, record (write_header 200 t) { body = body })

-- `Encoder.Encode` with the target as its writer, from what marshaling gives.
unfoldable pub encode : Bytes × GoError → Target → GoError × Target
unfolding write
encode (text, err) t = if not (is_nil err) then (err, t) else write (text ++ 0x0a ∷ []) t
