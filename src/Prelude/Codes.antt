-- ===== src/Prelude/Codes.antt =====
-- Texts as the code points of their characters: the tests that input checks make of a text.
use Prim.Native.Char.{code}
use Prim.Native.Nat.{ℕ}
use Prim.Native.String.{String, ◌++◌ as append}
use mathlib.Core.Bool.{Bool, true, false, ◌&&◌, ◌||◌}
use mathlib.Core.List.{List, [], ◌∷◌}
pub use package.text.Mathlib.Text.{starts_with}
use tekbreed_oss.Prelude.Tests.{eqb, leb}

abbrev pub codes : String → List ℕ
codes String.[] = []
codes (String.◌∷◌ c s) = code c ∷ codes s

-- the one of a class of characters that is given by its test
abbrev pub all_codes : (ℕ → Bool) → List ℕ → Bool
all_codes p [] = true
all_codes p (c ∷ cs) = p c && all_codes p cs

-- [A-Za-z0-9]
unfoldable pub is_alphanumeric : ℕ → Bool
is_alphanumeric c =
    (leb b'a' c && leb c b'z') || (leb b'A' c && leb c b'Z') || (leb b'0' c && leb c b'9')

abbrev codes_start : List ℕ → List ℕ → Bool
codes_start s [] = true
codes_start [] (d ∷ ds) = false
codes_start (c ∷ cs) (d ∷ ds) = eqb c d && codes_start cs ds

abbrev codes_contain : List ℕ → List ℕ → Bool
codes_contain [] t = codes_start [] t
codes_contain (c ∷ cs) t = codes_start (c ∷ cs) t || codes_contain cs t

abbrev codes_end : List ℕ → List ℕ → Bool
codes_end [] [] = true
codes_end [] (d ∷ ds) = false
codes_end (c ∷ cs) t = (codes_start (c ∷ cs) t && codes_start t (c ∷ cs)) || codes_end cs t

-- String.prototype.includes and endsWith; startsWith is the library's
unfoldable pub contains : String → String → Bool
contains s t = codes_contain (codes s) (codes t)

unfoldable pub ends_with : String → String → Bool
ends_with s t = codes_end (codes s) (codes t)

-- The parts of a text between its dots: `s.split(".")`.
abbrev prepend : String → List String → List String
prepend c [] = c ∷ []
prepend c (p ∷ ps) = append c p ∷ ps

unfoldable pub split_dots : String → List String
split_dots String.[] = "" ∷ []
split_dots (String.◌∷◌ c s) =
    let rest = split_dots s in
    elim (eqb (code c) b'.') [ true ↦ "" ∷ rest | false ↦ prepend (String.◌∷◌ c String.[]) rest ]
