-- ===== src/Refglob/Prefix.antt =====
-- The literal prefix of a pattern stands before every name that it matches.
use mathlib.Core.Path.{subst}
use mathlib.Core.Option.{some-injective}
use dstore.Prelude.{
  ℕ, zero, suc, ◌≡◌, refl, sym, ◌∙◌, ap, ◌⊎◌, inl, inr, Bool, true, false, ◌&&◌, ◌||◌, not, Option,
  none, some, List, [], ◌∷◌, ◌++◌, ltb, ◌==◌, ==_iff, if◌then◌else◌, length, any, arith,
  Option-cases, some-ne-none,
}
use dstore.Refglob.{
  Piece, star, segments, rest, Turn, plain, wild, star_turn, class_turn, escape_turn, turn, Pattern,
  written, after_turn, compile_runes, compile, is_control, max_len, at_rune, matches, parse_class,
}

-- A turn ends the literal prefix, or writes one rune and keeps it in the prefix where that goes on.
abbrev IsTurn : Bool → Turn → Type 0
IsTurn lit t =
    ((t.prefixed ≡ []) × (t.in_literal ≡ false)) ⊎ ((c : ℕ) × (skip : ℕ) × (t ≡ plain lit c skip))

abbrev AllTurns : Bool → Option Turn → Type 0
AllTurns lit none = Unit
AllTurns lit (some t) = IsTurn lit t

IsTurn-if :
    (lit b : Bool) (x y : Turn) → IsTurn lit x → IsTurn lit y → IsTurn lit (if b then x else y)
IsTurn-if lit true x y h k = h
IsTurn-if lit false x y h k = k

AllTurns-if :
    (lit b : Bool) (x y : Option Turn)
    → AllTurns lit x
    → AllTurns lit y
    → AllTurns lit (if b then x else y)
AllTurns-if lit true x y h k = h
AllTurns-if lit false x y h k = k

star_turn-IsTurn : (lit seg : Bool) (rs : List ℕ) → IsTurn lit (star_turn seg rs)
unfolding star_turn
star_turn-IsTurn lit seg [] = inl (refl, refl)
star_turn-IsTurn lit seg (d ∷ []) =
    IsTurn-if lit (d == 42 && seg) (wild rest true 1) (wild star false 0) (inl (refl, refl))
      (inl (refl, refl))
star_turn-IsTurn lit seg (d ∷ e ∷ es) =
    IsTurn-if lit (d == 42 && seg && e == 47) (wild segments true 2) (wild star false 0)
      (inl (refl, refl)) (inl (refl, refl))

escape_turn-AllTurns : (lit : Bool) (rs : List ℕ) → AllTurns lit (escape_turn lit rs)
unfolding escape_turn
escape_turn-AllTurns lit [] = _
escape_turn-AllTurns lit (c ∷ cs) = inr (c, 1, refl)

class_turn-AllTurns : (lit : Bool) (o : Option (Piece × ℕ)) → AllTurns lit (class_turn o)
unfolding class_turn
class_turn-AllTurns lit none = _
class_turn-AllTurns lit (some r) = inl (refl, refl)

turn-AllTurns : (lit seg : Bool) (r : ℕ) (rs : List ℕ) → AllTurns lit (turn lit seg r rs)
unfolding turn
turn-AllTurns lit seg r rs = AllTurns-if lit (r == 92) _ _ (escape_turn-AllTurns lit rs) (
    AllTurns-if lit (r == 42) _ _ (star_turn-IsTurn lit seg rs) (
      AllTurns-if lit (r == 63) _ _ (inl (refl, refl)) (
        AllTurns-if lit (r == 91) _ _ (class_turn-AllTurns lit (parse_class rs))
          (inr (r, 0, refl)))))

-- What a compiled rest of a pattern is, with `lit` at its start.
record Prefixed (lit : Bool) (p : Pattern) : Type 0 where
  pub over : lit ≡ false → p.prefix ≡ []
  pub stands :
      lit ≡ true
      → (s : List ℕ) → matches p.pieces s ≡ true
      → (more : List ℕ) × (s ≡ p.prefix ++ more)

at_rune-parts :
    (c : ℕ) (k : List ℕ → Bool) (s : List ℕ)
    → at_rune (λ x. x == c) k s ≡ true
    → (more : List ℕ) × (s ≡ c ∷ more) × (k more ≡ true)
unfolding at_rune
at_rune-parts c k [] h = cc
at_rune-parts c k (x ∷ xs) h =
    let e : x ≡ c = (==_iff x c).0 (ground arith) in (xs, ap (λ y. y ∷ xs) e, ground arith)

plain-Prefixed :
    (lit : Bool) (c skip : ℕ) (q : Pattern)
    → Prefixed lit q
    → Prefixed lit (record {
      pieces = (plain lit c skip).writes ++ q.pieces;
      prefix = (plain lit c skip).prefixed ++ q.prefix;
    })
unfolding plain matches
plain-Prefixed false c skip q g = record { over = λ e. g.over refl; stands = λ e s h. cc }
plain-Prefixed true c skip q g = record {
  over = λ e. cc;
  stands = λ e s h.
      let (xs, at, k) = at_rune-parts c (matches q.pieces) s h in
      let (more, same) = g.stands refl xs k in (more, at ∙ ap (λ (l : List ℕ). c ∷ l) same);
}

written-Prefixed :
    (lit : Bool) (t : Turn) (q : Pattern)
    → IsTurn lit t
    → Prefixed t.in_literal q
    → Prefixed lit (record { pieces = t.writes ++ q.pieces; prefix = t.prefixed ++ q.prefix })
unfolding plain
written-Prefixed lit t q (inl (none_written, ended)) g =
    let empty : t.prefixed ++ q.prefix ≡ [] = ap (λ l. l ++ q.prefix) none_written ∙ g.over ended in
    record { over = λ e. empty; stands = λ e s h. (s, ap (λ l. l ++ s) (sym empty)) }
written-Prefixed lit t q (inr (c, skip, e)) g =
    subst
      (λ u.
        Prefixed u.in_literal q
        → Prefixed lit (record { pieces = u.writes ++ q.pieces; prefix = u.prefixed ++ q.prefix }))
      (sym e) (plain-Prefixed lit c skip q) g

pub after_turn-some :
    (o : Option Turn) (k : Turn → Option Pattern) (p : Pattern)
    → after_turn o k ≡ some p
    → (t : Turn) × (o ≡ some t)
      × (q : Pattern) × (k t ≡ some q)
      × (record { pieces = t.writes ++ q.pieces; prefix = t.prefixed ++ q.prefix } ≡ p)
unfolding after_turn
after_turn-some none k p h = some-ne-none (sym h)
after_turn-some (some t) k p h = elim (Option-cases (k t)) [
  | inl e ↦ some-ne-none (sym h ∙ ap (written t) e)
  | inr (q, e) ↦ (t, refl, q, e, some-injective _ p (sym (ap (written t) e) ∙ h))
]

compile_runes-Prefixed :
    (lit seg : Bool) (skip : ℕ) (rs : List ℕ) (p : Pattern)
    → compile_runes lit seg skip rs ≡ some p
    → Prefixed lit p
unfolding compile_runes
compile_runes-Prefixed lit seg skip [] p h =
    let e : record { pieces = []; prefix = [] } ≡ p = some-injective _ p h in
    subst (Prefixed lit) e (record { over = λ n. refl; stands = λ n s m. (s, refl) })
compile_runes-Prefixed lit seg (suc skip) (r ∷ rs) p h = compile_runes-Prefixed lit seg skip rs p h
compile_runes-Prefixed lit seg zero (r ∷ rs) p h =
    let (t, o, q, k, e) =
      after_turn-some (turn lit seg r rs) (λ t. compile_runes t.in_literal t.seg_start t.skip rs) p
        h in
    subst (Prefixed lit) e (
      written-Prefixed lit t q (subst (AllTurns lit) o (turn-AllTurns lit seg r rs))
        (compile_runes-Prefixed t.in_literal t.seg_start t.skip rs q k))

pub guard-none :
    (b : Bool) (o : Option Pattern) (p : Pattern) → (if b then none else o) ≡ some p → o ≡ some p
guard-none true o p h = some-ne-none (sym h)
guard-none false o p h = h

-- Every name that a compiled pattern matches starts with the pattern's prefix.
pub compile-prefix :
    (size : ℕ) (valid : Bool) (rs : List ℕ) (p : Pattern) (name : List ℕ)
    → compile size valid rs ≡ some p
    → matches p.pieces name ≡ true
    → (more : List ℕ) × (name ≡ p.prefix ++ more)
unfolding compile
compile-prefix size valid rs p name h m =
    (compile_runes-Prefixed true true 0 rs p (
        guard-none (length rs == 0 || ltb max_len size || not valid || any is_control rs) _ p
          h)).stands
      refl name m
