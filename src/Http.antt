-- ===== src/Http.antt =====
-- transport/httptransport: JSON-RPC over HTTP.
pub mod Target
pub mod Writer
pub mod Reader
pub mod Client
pub mod Handler
pub mod RoundTrip
pub mod Routed
use harpy.Prelude.{String}

abbrev pub media_type : String
media_type = "application/json"

abbrev pub incorrect_http_method : String
incorrect_http_method = "JSON-RPC requests must use the POST method"

abbrev pub incorrect_media_type : String
incorrect_media_type = "JSON-RPC requests must use the application/json content type"
