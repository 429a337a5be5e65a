-- ===== src/Go/Array.antt =====
-- The text of a JSON array whose elements are written one after the other by `json.Encoder`, which
-- puts a line feed behind each.
use harpy.Prelude.{List, [], ◌∷◌, ◌++◌}
use harpy.Go.{Bytes}

abbrev pub open_array : Bytes
open_array = b'[' ∷ []

abbrev pub close_array : Bytes
close_array = b']' ∷ []

abbrev pub comma : Bytes
comma = b',' ∷ []

-- The texts, the first behind the separator and the others behind commas.
unfoldable pub entries : Bytes → List Bytes → Bytes
entries sep [] = []
entries sep (text ∷ more) = sep ++ (text ++ (0x0a ∷ entries comma more))

-- The array of the texts, or nothing if there are none.
unfoldable pub array_text : List Bytes → Bytes
unfolding entries
array_text [] = []
array_text (text ∷ more) = entries open_array (text ∷ more) ++ close_array
