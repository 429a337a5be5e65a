-- ===== src/Version/Tests.antt =====
-- The version in build information with and without the package.
use harpy.Prelude.{◌≡◌, refl, List, [], ◌∷◌, none, some}
use harpy.Version.{Module, default_version, version_of}

abbrev dependencies : List Module
dependencies =
    record { path = "go.uber.org/zap"; version = "v1.27.0" }
    ∷ record { path = "github.com/dogmatiq/harpy"; version = "v0.9.0" }
    ∷ []

found : version_of (some dependencies) ≡ "v0.9.0"
unfolding version_of
found = refl

unknown : version_of none ≡ default_version
unfolding version_of
unknown = refl
