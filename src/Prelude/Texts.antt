-- ===== src/Prelude/Texts.antt =====
-- Go texts: joining, Go's `map[string]string`, and prefixes.
use Prim.Native.String.{String, ◌++◌ as concat}
use mathlib.Core.List.{List, [], ◌∷◌}
use mathlib.Core.Bool.{Bool, true, false}
use mathlib.Core.Option.{Option, none, some}
use cloudkit_operator.Prelude.Tests.{◌==◌, if◌then◌else◌}

-- fmt.Sprintf("%s%s", s, t)
abbrev pub join_text : String → String → String
join_text s t = concat s t

-- A Go map[string]string. The program reads such a map by key and never iterates over it.
abbrev pub Dictionary : Type 0
Dictionary = List (String × String)

unfoldable pub lookup : String → Dictionary → Option String
lookup k [] = none
lookup k ((j, v) ∷ m) = if j == k then some v else lookup k m

unfoldable pub is_present {ℓ} : {A : Type ℓ} → Option A → Bool
is_present none = false
is_present (some v) = true
