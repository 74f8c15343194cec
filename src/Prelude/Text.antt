-- ===== src/Prelude/Text.antt =====
-- Text operations of the language that the source uses: `trim` and emptiness (a text that is empty
-- is falsy).
use Prim.Native.Nat.{ℕ}
use Prim.Native.Char.{code}
use Prim.Native.String.{String, [], ◌∷◌, ◌++◌}
use mathlib.Core.Bool.{Bool, true, false, ◌&&◌, ◌||◌}
use mathlib.Core.Option.{Option, none, some}
use guardian_backend_service.Prelude.Tests.{leb, or_else, ◌==◌, if◌then◌else◌}

abbrev pub is_empty : String → Bool
is_empty [] = true
is_empty (_ ∷ _) = false

-- the white space of ASCII, and the no-break space
abbrev pub is_space : ℕ → Bool
is_space c = c == 32 || c == 160 || (leb 9 c && leb c 13)

abbrev pub trim_start : String → String
trim_start [] = []
trim_start (c ∷ s) = if is_space (code c) then trim_start s else c ∷ s

abbrev pub trim_end : String → String
trim_end [] = []
trim_end (c ∷ s) =
    let rest = trim_end s in if is_empty rest && is_space (code c) then [] else c ∷ rest

unfoldable pub trim : String → String
trim s = trim_end (trim_start s)

-- `note ? `${reason ?? ''}${tag}${note}`.trim() : reason`
unfoldable pub with_note : String → Option String → Option String → Option String
unfolding trim
with_note tag none reason = reason
with_note tag (some note) reason =
    if is_empty note then reason else some (trim (or_else reason "" ++ tag ++ note))
