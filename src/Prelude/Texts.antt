-- ===== src/Prelude/Texts.antt =====
-- Texts that the program walks, as lists of code points; names and ids stay native strings.
use Prim.Native.Nat.{ℕ}
use Prim.Native.Char.{code}
use Prim.Native.String.{String}
use mathlib.Core.Bool.{Bool, true, false}
use mathlib.Core.Option.{Option, none, some}
use mathlib.Core.List.{List, [], ◌∷◌, ◌++◌}

abbrev pub Text : Type 0
Text = List ℕ

abbrev pub codes : String → Text
codes String.[] = []
codes (String.◌∷◌ c s) = code c ∷ codes s

-- `sep.join(parts)`
abbrev pub join : Text → List Text → Text
join sep [] = []
join sep (t ∷ []) = t
join sep (t ∷ u ∷ ts) = t ++ (sep ++ join sep (u ∷ ts))

-- `bool(text)`
abbrev pub is_nonempty : Text → Bool
is_nonempty [] = false
is_nonempty (c ∷ cs) = true

-- `bool(text)` of a `str | None`
abbrev pub is_truthy : Option Text → Bool
is_truthy none = false
is_truthy (some t) = is_nonempty t

-- `a or b`
abbrev pub or_text : Option Text → Text → Text
or_text none b = b
or_text (some []) b = b
or_text (some (c ∷ cs)) b = c ∷ cs

-- `bool(s)` of a name, and of a `str | None`.
abbrev pub name_nonempty : String → Bool
name_nonempty String.[] = false
name_nonempty (String.◌∷◌ c s) = true

abbrev pub name_truthy : Option String → Bool
name_truthy none = false
name_truthy (some s) = name_nonempty s
