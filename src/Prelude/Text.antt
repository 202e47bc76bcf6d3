-- ===== src/Prelude/Text.antt =====
-- Texts: equality, membership in a list of texts, and `value.trim() === ""` as a test.
use Prim.Native.Nat.{ℕ}
use Prim.Native.Char.{code}
use Prim.Native.String.{String}
use mathlib.Core.Bool.{Bool, true, false, ◌&&◌, ◌||◌}
use mathlib.Core.Option.{Option, none, some}
use mathlib.Core.List.{List, [], ◌∷◌}
use text.Mathlib.Text.{◌==◌ as text_eq}
use radar_ia.Prelude.Tests.{if◌then◌else◌, leb, ◌==◌}

abbrev pub str_eq : String → String → Bool
str_eq s t = text_eq s t

-- `values.includes(s)`
abbrev pub includes : String → List String → Bool
includes s [] = false
includes s (x ∷ xs) = let rest = includes s xs in if str_eq x s then true else rest

-- `a === b` on nullable texts
abbrev pub same_text : Option String → Option String → Bool
same_text none none = true
same_text (some a) (some b) = str_eq a b
same_text _ _ = false

-- the white space that `String.prototype.trim` removes
unfoldable pub is_space : ℕ → Bool
is_space c =
    c == 32
    || (leb 9 c && leb c 13)
    || c == 0xa0
    || c == 0xfeff
    || c == 0x1680
    || (leb 0x2000 c && leb c 0x200a)
    || c == 0x2028
    || c == 0x2029
    || c == 0x202f
    || c == 0x205f
    || c == 0x3000

-- `s.trim() === ""`
unfoldable pub is_blank : String → Bool
unfolding is_space
is_blank String.[] = true
is_blank (String.◌∷◌ c s) = is_space (code c) && is_blank s
