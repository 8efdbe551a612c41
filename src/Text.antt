-- ===== src/Text.antt =====
-- What repics uses of the Rust standard library's text: a text that is walked is a list of code
-- points.
pub mod Number
pub mod Port
use Prim.Native.Char.{code}
use Prim.Native.String.{String}
use mathlib.Core.List.{reverse}
use repics.Prelude.{ℕ, Bool, true, false, ◌||◌, ◌&&◌, List, [], ◌∷◌, ◌++◌, eqb, leb, if◌then◌else◌}

abbrev pub Text : Type 0
Text = List ℕ

abbrev pub codes : String → Text
codes String.[] = []
codes (String.◌∷◌ c s) = code c ∷ codes s

-- `char::is_whitespace`: the Unicode property White_Space.
unfoldable pub is_whitespace : ℕ → Bool
is_whitespace c =
    (leb 9 c && leb c 13)
    || eqb c 32
    || eqb c 0x85
    || eqb c 0xa0
    || eqb c 0x1680
    || (leb 0x2000 c && leb c 0x200a)
    || eqb c 0x2028
    || eqb c 0x2029
    || eqb c 0x202f
    || eqb c 0x205f
    || eqb c 0x3000

unfoldable pub trim_start : Text → Text
unfolding is_whitespace
trim_start [] = []
trim_start (c ∷ cs) = if is_whitespace c then trim_start cs else c ∷ cs

-- `str::trim`.
unfoldable pub trim : Text → Text
unfolding trim_start
trim s = reverse (trim_start (reverse (trim_start s)))

end_word : Text → List Text → List Text
end_word [] ws = ws
end_word (c ∷ cs) ws = reverse (c ∷ cs) ∷ ws

-- The words of a text, with what was read of the word that is open, last letter first.
unfoldable pub words_from : Text → Text → List Text
unfolding is_whitespace end_word
words_from word [] = end_word word []
words_from word (c ∷ cs) =
    let ended = words_from [] cs in
    let longer = words_from (c ∷ word) cs in if is_whitespace c then end_word word ended else longer

-- `str::split_whitespace`.
unfoldable pub split_whitespace : Text → List Text
unfolding words_from
split_whitespace s = words_from [] s
