-- ===== src/Refglob.antt =====
-- refglob/refglob.go: reference globs. A pattern is its runes. The RE2 expression that Compile writes is the
-- list of its pieces, each of which matches what RE2 documents for it: `.` is any rune but a newline.
pub mod Prefix
pub mod Segments
use dstore.Prelude.{
  ℕ, zero, suc, ◌+◌, ◌-◌, Bool, true, false, ◌&&◌, ◌||◌, not, Option, none, some, List, [], ◌∷◌,
  ◌++◌, ltb, leb, ◌==◌, if◌then◌else◌, length, any, drop,
}

pub data Piece : Type 0 where
  literal : ℕ → Piece
  star question : Piece
  segments rest : Piece
  class : Bool → List (ℕ × ℕ) → Piece

-- What RE2 documents of a class: a rune in one of its ranges, or in none of them where it is negated.
unfoldable pub in_items : ℕ → List (ℕ × ℕ) → Bool
in_items c items = any (λ (i : ℕ × ℕ). leb (i.0) c && leb c (i.1)) items

unfoldable pub in_class : Bool → List (ℕ × ℕ) → ℕ → Bool
unfolding in_items
in_class negate ranges c = if negate then not (in_items c ranges) else in_items c ranges

-- The ranges that parseClass writes for its items: a negated class has the slash among them, and it is
-- carved out of the items of another. `[^\x00-\x{10FFFF}]`, for a class left with no range, matches nothing.
unfoldable pub carve : ℕ × ℕ → List (ℕ × ℕ)
carve i =
    let below = if ltb (i.0) 47 then (i.0, 46) ∷ [] else [] in
    let above = if ltb 47 (i.1) then (48, i.1) ∷ [] else [] in
    if leb (i.0) 47 && leb 47 (i.1) then below ++ above else i ∷ []

unfoldable pub carve_all : List (ℕ × ℕ) → List (ℕ × ℕ)
unfolding carve
carve_all [] = []
carve_all (i ∷ is) = carve i ++ carve_all is

unfoldable pub class_ranges : Bool → List (ℕ × ℕ) → List (ℕ × ℕ)
unfolding carve_all
class_ranges true items = (47, 47) ∷ items
class_ranges false items = carve_all items

-- classRune: the rune and how many it took.
unfoldable pub class_rune : List ℕ → Option (ℕ × ℕ)
class_rune [] = none
class_rune (c ∷ []) = if c == 92 then none else some (c, 1)
class_rune (c ∷ d ∷ cs) = if c == 92 then some (d, 2) else some (c, 1)

-- An item of a class with how many runes it took, after its first rune.
unfoldable pub range_end : ℕ → ℕ → Option (ℕ × ℕ) → Option ((ℕ × ℕ) × ℕ)
range_end lo n none = none
range_end lo n (some hi) = if ltb (hi.0) lo then none else some ((lo, hi.0), n + 1 + hi.1)

unfoldable pub item_rest : ℕ → ℕ → List ℕ → Option ((ℕ × ℕ) × ℕ)
unfolding range_end class_rune
item_rest lo n [] = some ((lo, lo), n)
item_rest lo n (d ∷ []) = some ((lo, lo), n)
item_rest lo n (d ∷ x ∷ xs) =
    if d == 45 && not (x == 93) then range_end lo n (class_rune (x ∷ xs)) else some ((lo, lo), n)

unfoldable pub item_from : List ℕ → Option (ℕ × ℕ) → Option ((ℕ × ℕ) × ℕ)
unfolding item_rest
item_from rs none = none
item_from rs (some lo) = item_rest (lo.0) (lo.1) (drop (lo.1) rs)

-- The items of a class up to its bracket, past `skip` runes, with how many runes they took.
unfoldable pub more_items :
    Option ((ℕ × ℕ) × ℕ) → (ℕ → Option (List (ℕ × ℕ) × ℕ)) → Option (List (ℕ × ℕ) × ℕ)
more_items none k = none
more_items (some i) k = elim (k (i.1 - 1)) [ none ↦ none | some r ↦ some (i.0 ∷ r.0, r.1 + i.1) ]

unfoldable pub class_items : ℕ → List ℕ → Option (List (ℕ × ℕ) × ℕ)
unfolding item_from class_rune more_items
class_items skip [] = none
class_items (suc skip) (c ∷ cs) = class_items skip cs
class_items zero (c ∷ cs) =
    if c == 93
    then some ([], 0)
    else more_items (item_from (c ∷ cs) (class_rune (c ∷ cs))) (λ n. class_items n cs)

-- parseClass, after its opening bracket.
unfoldable pub class_of : Bool → ℕ → Option (List (ℕ × ℕ) × ℕ) → Option (Piece × ℕ)
unfolding class_ranges
class_of negate n none = none
class_of negate n (some r) =
    if length (r.0) == 0 then none else some (class negate (class_ranges negate (r.0)), n + r.1 + 1)

unfoldable pub parse_class : List ℕ → Option (Piece × ℕ)
unfolding class_of class_items
parse_class [] = none
parse_class (c ∷ cs) =
    if c == 33 || c == 94
    then class_of true 2 (class_items 0 cs)
    else class_of false 1 (class_items 0 (c ∷ cs))

-- What the loop of Compile does at a rune: what it writes, and its variables after it; `skip` is how many
-- more runes it has taken.
pub record Turn : Type 0 where
  pub writes : List Piece
  pub prefixed : List ℕ
  pub in_literal : Bool
  pub seg_start : Bool
  pub skip : ℕ

unfoldable pub plain : Bool → ℕ → ℕ → Turn
plain lit c skip = record {
  writes = literal c ∷ [];
  prefixed = if lit then c ∷ [] else [];
  in_literal = lit;
  seg_start = c == 47;
  skip = skip;
}

abbrev pub wild : Piece → Bool → ℕ → Turn
wild p seg skip = record {
  writes = p ∷ [];
  prefixed = [];
  in_literal = false;
  seg_start = seg;
  skip = skip;
}

unfoldable pub star_turn : Bool → List ℕ → Turn
star_turn seg [] = wild star false 0
star_turn seg (d ∷ []) = if d == 42 && seg then wild rest true 1 else wild star false 0
star_turn seg (d ∷ e ∷ es) =
    if d == 42 && seg && e == 47 then wild segments true 2 else wild star false 0

unfoldable pub class_turn : Option (Piece × ℕ) → Option Turn
class_turn none = none
class_turn (some r) = some (wild (r.0) false (r.1 - 1))

unfoldable pub escape_turn : Bool → List ℕ → Option Turn
unfolding plain
escape_turn lit [] = none
escape_turn lit (c ∷ cs) = some (plain lit c 1)

unfoldable pub turn : Bool → Bool → ℕ → List ℕ → Option Turn
unfolding plain star_turn class_turn escape_turn parse_class
turn lit seg r rs =
    if r == 92
    then escape_turn lit rs
    else if r == 42
    then some (star_turn seg rs)
    else if r == 63
    then some (wild question false 0)
    else if r == 91
    then class_turn (parse_class rs)
    else some (plain lit r 0)

-- The pieces and the literal prefix.
pub record Pattern : Type 0 where
  pub pieces : List Piece
  pub prefix : List ℕ

unfoldable pub written : Turn → Option Pattern → Option Pattern
written t none = none
written t (some p) =
    some (record { pieces = t.writes ++ p.pieces; prefix = t.prefixed ++ p.prefix })

unfoldable pub after_turn : Option Turn → (Turn → Option Pattern) → Option Pattern
unfolding written
after_turn none k = none
after_turn (some t) k = written t (k t)

-- The loop of Compile.
unfoldable pub compile_runes : Bool → Bool → ℕ → List ℕ → Option Pattern
unfolding turn after_turn
compile_runes lit seg skip [] = some (record { pieces = []; prefix = [] })
compile_runes lit seg (suc skip) (r ∷ rs) = compile_runes lit seg skip rs
compile_runes lit seg zero (r ∷ rs) =
    after_turn (turn lit seg r rs) (λ t. compile_runes t.in_literal t.seg_start t.skip rs)

-- Compile, of a pattern of `size` bytes; that it is valid UTF-8 is `valid`.
abbrev pub max_len : ℕ
max_len = 4096

abbrev pub is_control : ℕ → Bool
is_control r = ltb r 32 || r == 127

unfoldable pub compile : ℕ → Bool → List ℕ → Option Pattern
unfolding compile_runes
compile size valid rs =
    if length rs == 0 || ltb max_len size || not valid || any is_control rs
    then none
    else compile_runes true true 0 rs

-- What each piece matches, with `k` for the pieces after it.
unfoldable pub at_rune : (ℕ → Bool) → (List ℕ → Bool) → List ℕ → Bool
at_rune p k [] = false
at_rune p k (c ∷ cs) = p c && k cs

unfoldable pub at_run : (ℕ → Bool) → (List ℕ → Bool) → List ℕ → Bool
at_run p k [] = k []
at_run p k (c ∷ cs) = let more = at_run p k cs in k (c ∷ cs) || p c && more

-- Whole segments; `start` is whether one begins here.
unfoldable pub at_segments : Bool → (List ℕ → Bool) → List ℕ → Bool
at_segments start k [] = start && k []
at_segments start k (c ∷ cs) = let more = at_segments (c == 47) k cs in start && k (c ∷ cs) || more

unfoldable pub matches : List Piece → List ℕ → Bool
unfolding at_rune at_run at_segments in_class
matches [] s = length s == 0
matches (literal c ∷ ps) s = at_rune (λ x. x == c) (matches ps) s
matches (star ∷ ps) s = at_run (λ x. not (x == 47)) (matches ps) s
matches (question ∷ ps) s = at_rune (λ x. not (x == 47)) (matches ps) s
matches (segments ∷ ps) s = at_segments true (matches ps) s
matches (rest ∷ ps) s = at_run (λ x. not (x == 10)) (matches ps) s
matches (class negate items ∷ ps) s = at_rune (in_class negate items) (matches ps) s
