-- ===== src/Prelude/Text.antt =====
-- Texts by their characters.
use Prim.Native.String.{String, [], ◌∷◌}
use text.Mathlib.Text.{◌==◌}
use group_sync_operator.Prelude.Tests.{if◌then◌else◌}

-- `strings.Split(s, "@")[0]`
unfoldable pub before_at : String → String
before_at [] = []
before_at (c ∷ s) = let rest = before_at s in if (c ∷ []) == "@" then [] else c ∷ rest

-- The last character, as a text.
unfoldable pub last : String → String
last [] = []
last (c ∷ s) = let rest = last s in if s == "" then c ∷ [] else rest
