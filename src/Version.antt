-- ===== src/Version.antt =====
-- internal/version/version.go: the version that the middleware reports.
mod Tests
use harpy.Prelude.{
  ◌≡◌, ◌≢◌, refl, String, str_eq, str_eq_iff, List, [], ◌∷◌, ◌++◌, Option, none, some, arith, All,
  if◌then◌else◌,
}

abbrev pub default_version : String
default_version = "0.0.0-dev"

abbrev pub package_path : String
package_path = "github.com/dogmatiq/harpy"

-- A module in the build information, by its path and its version.
pub record Module : Type 0 where
  pub path : String
  pub version : String

-- The loop over the dependencies, from the version so far.
unfoldable pub find_version : String → List Module → String
find_version version [] = version
find_version version (dep ∷ more) =
    find_version (if str_eq dep.path package_path then dep.version else version) more

-- `init`: the variable `Version` behind it, from what `debug.ReadBuildInfo` returns.
unfoldable pub version_of : Option (List Module) → String
unfolding find_version
version_of none = default_version
version_of (some deps) = find_version default_version deps

-- Modules behind the last one of this package change nothing.
find_version-others :
    (version : String) (deps : List Module)
    → All (λ dep. dep.path ≢ package_path) deps
    → find_version version deps ≡ version
unfolding find_version
find_version-others version [] others = refl
find_version-others version (dep ∷ more) others =
    ground
      (arith, others.0, str_eq_iff dep.path package_path, find_version-others version more others.1)

-- The version is that of the last dependency with the path of the package.
pub version_of-last :
    (before : List Module) (dep : Module) (more : List Module)
    → dep.path ≡ package_path
    → All (λ dep'. dep'.path ≢ package_path) more
    → version_of (some (before ++ dep ∷ more)) ≡ dep.version
unfolding version_of find_version
version_of-last before dep more here others = go default_version before
  where
    go :
        (version : String) (deps : List Module)
        → find_version version (deps ++ dep ∷ more) ≡ dep.version
    go version [] =
        ground (
          arith,
          here,
          str_eq_iff dep.path package_path,
          find_version-others dep.version more others,
        )
    go version (dep' ∷ deps) =
        go (if str_eq dep'.path package_path then dep'.version else version) deps
