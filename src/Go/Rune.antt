-- ===== src/Go/Rune.antt =====
-- `ReadRune` of `bufio` (UTF-8 decoding as in `unicode/utf8`) and `unicode.IsSpace`.
use harpy.Prelude.{
  ℕ, ◌+◌, ◌*◌, ◌%◌, Bool, ◌&&◌, ◌||◌, Option, none, some, [], ◌∷◌, leb, ltb, ◌==◌, if◌then◌else◌,
}
use harpy.Go.{Bytes}

-- U+FFFD, which stands for one byte that begins no valid encoding.
abbrev rune_error : ℕ
rune_error = 0xfffd

abbrev within : ℕ → ℕ → ℕ → Bool
within lo hi b = leb lo b && leb b hi

-- The smallest and the largest second byte after a given first one.
abbrev second_low : ℕ → ℕ
second_low b = if b == 0xe0 then 0xa0 else if b == 0xf0 then 0x90 else 0x80

abbrev second_high : ℕ → ℕ
second_high b = if b == 0xed then 0x9f else if b == 0xf4 then 0x8f else 0xbf

two : ℕ → Bytes → ℕ × Bytes
two b (c ∷ rest) =
    if within 0x80 0xbf c then (b % 32 * 64 + c % 64, rest) else (rune_error, c ∷ rest)
two b [] = (rune_error, [])

three : ℕ → Bytes → ℕ × Bytes
three b (c ∷ d ∷ rest) =
    if within (second_low b) (second_high b) c && within 0x80 0xbf d
    then (b % 16 * 4096 + c % 64 * 64 + d % 64, rest)
    else (rune_error, c ∷ d ∷ rest)
three b rest = (rune_error, rest)

four : ℕ → Bytes → ℕ × Bytes
four b (c ∷ d ∷ e ∷ rest) =
    if within (second_low b) (second_high b) c && (within 0x80 0xbf d && within 0x80 0xbf e)
    then (b % 8 * 262144 + c % 64 * 4096 + d % 64 * 64 + e % 64, rest)
    else (rune_error, c ∷ d ∷ e ∷ rest)
four b rest = (rune_error, rest)

-- The first rune and the bytes behind it, or `none` at the end of the input.
unfoldable pub read_rune : Bytes → Option (ℕ × Bytes)
unfolding two three four
read_rune [] = none
read_rune (b ∷ rest) = some (
    if ltb b 0x80
    then (b, rest)
    else if within 0xc2 0xdf b
    then two b rest
    else if within 0xe0 0xef b
    then three b rest
    else if within 0xf0 0xf4 b
    then four b rest
    else (rune_error, rest))

-- The code points with the property White_Space.
unfoldable pub is_space : ℕ → Bool
is_space r =
    within 0x09 0x0d r
    || (r == 0x20
        || (r == 0x85
            || (r == 0xa0
                || (r == 0x1680
                    || (within 0x2000 0x200a r
                        || (r == 0x2028
                            || (r == 0x2029 || (r == 0x202f || (r == 0x205f || r == 0x3000)))))))))
