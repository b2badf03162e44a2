-- ===== src/Samples/Globs.antt =====
-- The pattern `a/*c` at a small name.
use dstore.Prelude.{ℕ, ◌≡◌, refl, true, false, List, [], ◌∷◌, ◌++◌}
use dstore.Refglob.{Piece, literal, star, class, in_class, Pattern, compile, matches}
use dstore.Refglob.Prefix.{compile-prefix}
use dstore.Refglob.Segments.{slashes, spelled, matches-slashes}

abbrev pattern_pieces : List Piece
pattern_pieces = literal 97 ∷ literal 47 ∷ star ∷ literal 99 ∷ []

abbrev compiled : Pattern
compiled = record { pieces = pattern_pieces; prefix = 97 ∷ 47 ∷ [] }

compile-prefix_example : (more : List ℕ) × (97 ∷ 47 ∷ 98 ∷ 99 ∷ [] ≡ compiled.prefix ++ more)
unfolding compile matches
compile-prefix_example =
    compile-prefix 4 true (97 ∷ 47 ∷ 42 ∷ 99 ∷ []) compiled (97 ∷ 47 ∷ 98 ∷ 99 ∷ []) refl refl

-- The pattern `a/[+-9]`, a class that would have the slash.
abbrev classed : Pattern
classed = record {
  pieces = literal 97 ∷ literal 47 ∷ class false ((43, 46) ∷ (48, 57) ∷ []) ∷ [];
  prefix = 97 ∷ 47 ∷ [];
}

matches-slashes_example : slashes (97 ∷ 47 ∷ 49 ∷ []) ≡ spelled classed.pieces
unfolding compile matches in_class
matches-slashes_example =
    matches-slashes 7 true (97 ∷ 47 ∷ 91 ∷ 43 ∷ 45 ∷ 57 ∷ 93 ∷ []) classed (97 ∷ 47 ∷ 49 ∷ []) refl
      refl refl
