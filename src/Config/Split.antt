-- ===== src/Config/Split.antt =====
-- The texts of cutoffs in the documented format (README.md): parts with a separator between them.
use Prim.Native.Char.{Char, code}
use Prim.Native.String.{[], ◌∷◌}
use bicycle.Prelude.{ℕ, ◌≡◌, false, [], ◌∷◌, String, ◌==◌}

-- The separator is not in the text.
abbrev pub IsFree : ℕ → String → Type 0
IsFree sep [] = Unit
IsFree sep (ch ∷ s) = ((code ch == sep) ≡ false) × IsFree sep s
