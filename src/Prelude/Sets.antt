-- ===== src/Prelude/Sets.antt =====
-- Python's `len(set(xs)) == len(xs)` and `x in xs`, for numbers and texts.
use Prim.Native.Nat.{ℕ}
use Prim.Native.String.{String}
use text.Mathlib.Text.{◌==◌ as str_eq}
use mathlib.Core.Bool.{Bool, true, not, ◌&&◌}
use mathlib.Core.List.{List, [], ◌∷◌}
use invoice_ops.Prelude.Tests.{◌==◌}
use invoice_ops.Prelude.Lists.{any}

abbrev pub distinct_texts : List String → Bool
distinct_texts [] = true
distinct_texts (x ∷ xs) = not (any (str_eq x) xs) && distinct_texts xs

abbrev pub distinct : List ℕ → Bool
distinct [] = true
distinct (x ∷ xs) = not (any (λ y. x == y) xs) && distinct xs
