-- ===== src/Refglob/Segments.antt =====
-- A pattern without `**` keeps within the segments of a name.
use mathlib.Core.Path.{subst}
use mathlib.Core.Option.{some-injective}
use dstore.Prelude.{
  ℕ, zero, suc, ◌+◌, ◌≡◌, refl, sym, ◌∙◌, ap, ◌⊎◌, inl, inr, Bool, true, false, ◌&&◌, ◌||◌, not,
  Option, none, some, List, [], ◌∷◌, ◌++◌, ltb, leb, ◌==◌, ==_iff, if◌then◌else◌, length, any,
  count, All, arith, Bool-cases,
}
use dstore.Refglob.{
  Piece, literal, star, question, segments, rest, class, in_items, in_class, carve, carve_all,
  class_ranges, class_of, class_items, parse_class, Turn, plain, star_turn, class_turn, escape_turn,
  turn, Pattern, compile_runes, compile, is_control, max_len, at_rune, at_run, matches,
}
use dstore.Refglob.Prefix.{after_turn-some, guard-none}

abbrev pub slashes : List ℕ → ℕ
slashes s = count (λ c. c == 47) s

-- Whether a pattern has no `**`, and how many slashes it spells.
abbrev pub is_narrow : List Piece → Bool
is_narrow [] = true
is_narrow (segments ∷ ps) = false
is_narrow (rest ∷ ps) = false
is_narrow (p ∷ ps) = is_narrow ps

abbrev pub spelled : List Piece → ℕ
spelled [] = 0
spelled (literal c ∷ ps) = (if c == 47 then 1 else 0) + spelled ps
spelled (p ∷ ps) = spelled ps

-- `k` accepts only names with `n` slashes.
abbrev Slashed : (List ℕ → Bool) → ℕ → Type 0
Slashed k n = (s : List ℕ) → k s ≡ true → slashes s ≡ n

at_rune-Slashed :
    (p : ℕ → Bool) (k : List ℕ → Bool) (n : ℕ)
    → ((c : ℕ) → p c ≡ true → (c == 47) ≡ false)
    → Slashed k n
    → Slashed (at_rune p k) n
unfolding at_rune
at_rune-Slashed p k n out g [] h = cc
at_rune-Slashed p k n out g (c ∷ cs) h = ground (arith, out c, g cs)

at_run-Slashed :
    (p : ℕ → Bool) (k : List ℕ → Bool) (n : ℕ)
    → ((c : ℕ) → p c ≡ true → (c == 47) ≡ false)
    → Slashed k n
    → Slashed (at_run p k) n
unfolding at_run
at_run-Slashed p k n out g [] h = g [] h
at_run-Slashed p k n out g (c ∷ cs) h = elim (Bool-cases (k (c ∷ cs))) [
  | inl t ↦ g (c ∷ cs) t
  | inr f ↦ ground (arith, out c, at_run-Slashed p k n out g cs)
]

literal-Slashed :
    (c : ℕ) (k : List ℕ → Bool) (n : ℕ)
    → Slashed k n
    → Slashed (at_rune (λ x. x == c) k) ((if c == 47 then 1 else 0) + n)
unfolding at_rune
literal-Slashed c k n g [] h = cc
literal-Slashed c k n g (x ∷ xs) h = ground (arith, g xs)

-- A piece other than a spelled slash, `**` and `**/` matches no slash.
abbrev NoSlash : Piece → Type 0
NoSlash (class negate ranges) = (c : ℕ) → in_class negate ranges c ≡ true → (c == 47) ≡ false
NoSlash _ = Unit

in_items-append :
    (c : ℕ) (xs ys : List (ℕ × ℕ))
    → in_items c (xs ++ ys) ≡ true
    → (in_items c xs ≡ true) ⊎ (in_items c ys ≡ true)
unfolding in_items
in_items-append c [] ys h = inr h
in_items-append c (x ∷ xs) ys h = elim (Bool-cases (leb (x.0) c && leb c (x.1))) [
  | inl t ↦ inl (rw t refl)
  | inr f ↦ rw f (in_items-append c xs ys (sym (rw f refl) ∙ h))
]

carve-47 : (i : ℕ × ℕ) → in_items 47 (carve i) ≡ false
unfolding in_items carve
carve-47 i = ground arith

carve_all-47 : (items : List (ℕ × ℕ)) → in_items 47 (carve_all items) ≡ false
unfolding carve_all in_items
carve_all-47 [] = refl
carve_all-47 (i ∷ is) = elim (Bool-cases (in_items 47 (carve i ++ carve_all is))) [
  | inr f ↦ f
  | inl t ↦ elim (in_items-append 47 (carve i) (carve_all is) t) [
    | inl a ↦ cc (a, carve-47 i)
    | inr a ↦ cc (a, carve_all-47 is)
  ]
]

class_ranges-47 :
    (negate : Bool) (items : List (ℕ × ℕ)) → in_class negate (class_ranges negate items) 47 ≡ false
unfolding in_class class_ranges in_items
class_ranges-47 true items = refl
class_ranges-47 false items = carve_all-47 items

class_ranges-NoSlash :
    (negate : Bool) (items : List (ℕ × ℕ)) → NoSlash (class negate (class_ranges negate items))
class_ranges-NoSlash negate items c h = elim (Bool-cases (c == 47)) [
  | inr f ↦ f
  | inl t ↦
      let at : in_class negate (class_ranges negate items) c ≡ false =
        ap (λ x. in_class negate (class_ranges negate items) x) ((==_iff c 47).0 t)
        ∙ class_ranges-47 negate items in
      cc (h, at)
]

abbrev ClassNoSlash : Option (Piece × ℕ) → Type 0
ClassNoSlash none = Unit
ClassNoSlash (some r) = NoSlash (r.0)

abbrev TurnNoSlash : Option Turn → Type 0
TurnNoSlash none = Unit
TurnNoSlash (some t) = All NoSlash t.writes

option_if :
    {A : Type 0} (P : Option A → Type 0) (b : Bool) (x y : Option A)
    → P x
    → P y
    → P (if b then x else y)
option_if P true x y h k = h
option_if P false x y h k = k

class_of-NoSlash :
    (negate : Bool) (n : ℕ) (o : Option (List (ℕ × ℕ) × ℕ)) → ClassNoSlash (class_of negate n o)
unfolding class_of
class_of-NoSlash negate n none = _
class_of-NoSlash negate n (some r) =
    option_if ClassNoSlash (length (r.0) == 0) none _ _ (class_ranges-NoSlash negate (r.0))

parse_class-NoSlash : (rs : List ℕ) → ClassNoSlash (parse_class rs)
unfolding parse_class
parse_class-NoSlash [] = _
parse_class-NoSlash (c ∷ cs) =
    option_if ClassNoSlash (c == 33 || c == 94) _ _ (class_of-NoSlash true 2 (class_items 0 cs))
      (class_of-NoSlash false 1 (class_items 0 (c ∷ cs)))

class_turn-NoSlash : (o : Option (Piece × ℕ)) → ClassNoSlash o → TurnNoSlash (class_turn o)
unfolding class_turn
class_turn-NoSlash none h = _
class_turn-NoSlash (some r) h = (h, tt)

turn_if :
    (b : Bool) (x y : Turn)
    → All NoSlash x.writes
    → All NoSlash y.writes
    → All NoSlash (if b then x else y).writes
turn_if true x y h k = h
turn_if false x y h k = k

All-append : (ps qs : List Piece) → All NoSlash ps → All NoSlash qs → All NoSlash (ps ++ qs)
All-append [] qs h k = k
All-append (p ∷ ps) qs h k = (h.0, All-append ps qs h.1 k)

star_turn-NoSlash : (seg : Bool) (rs : List ℕ) → All NoSlash (star_turn seg rs).writes
unfolding star_turn
star_turn-NoSlash seg [] = (tt, tt)
star_turn-NoSlash seg (d ∷ []) = turn_if (d == 42 && seg) _ _ (tt, tt) (tt, tt)
star_turn-NoSlash seg (d ∷ e ∷ es) = turn_if (d == 42 && seg && e == 47) _ _ (tt, tt) (tt, tt)

escape_turn-NoSlash : (lit : Bool) (rs : List ℕ) → TurnNoSlash (escape_turn lit rs)
unfolding escape_turn plain
escape_turn-NoSlash lit [] = _
escape_turn-NoSlash lit (c ∷ cs) = (tt, tt)

turn-NoSlash : (lit seg : Bool) (r : ℕ) (rs : List ℕ) → TurnNoSlash (turn lit seg r rs)
unfolding turn plain
turn-NoSlash lit seg r rs = option_if TurnNoSlash (r == 92) _ _ (escape_turn-NoSlash lit rs) (
    option_if TurnNoSlash (r == 42) _ _ (star_turn-NoSlash seg rs) (
      option_if TurnNoSlash (r == 63) _ _ (tt, tt)
        (option_if TurnNoSlash (r == 91) _ _
          (class_turn-NoSlash (parse_class rs) (parse_class-NoSlash rs)) (tt, tt))))

compile_runes-NoSlash :
    (lit seg : Bool) (skip : ℕ) (rs : List ℕ) (p : Pattern)
    → compile_runes lit seg skip rs ≡ some p
    → All NoSlash p.pieces
unfolding compile_runes
compile_runes-NoSlash lit seg skip [] p h =
    subst (λ (x : Pattern). All NoSlash x.pieces) (some-injective _ p h) tt
compile_runes-NoSlash lit seg (suc skip) (r ∷ rs) p h = compile_runes-NoSlash lit seg skip rs p h
compile_runes-NoSlash lit seg zero (r ∷ rs) p h =
    let (t, o, q, k, e) =
      after_turn-some (turn lit seg r rs) (λ t. compile_runes t.in_literal t.seg_start t.skip rs) p
        h in
    subst (λ (x : Pattern). All NoSlash x.pieces) e
      (All-append t.writes q.pieces (subst TurnNoSlash o (turn-NoSlash lit seg r rs))
        (compile_runes-NoSlash t.in_literal t.seg_start t.skip rs q k))

not_slash : (c : ℕ) → not (c == 47) ≡ true → (c == 47) ≡ false
not_slash c h = ground arith

pieces-slashes :
    (ps : List Piece) (name : List ℕ)
    → All NoSlash ps
    → is_narrow ps ≡ true
    → matches ps name ≡ true
    → slashes name ≡ spelled ps
unfolding matches
pieces-slashes [] [] a n h = refl
pieces-slashes [] (c ∷ cs) a n h = absurd (ground arith)
pieces-slashes (literal c ∷ ps) name a n h =
    literal-Slashed c (matches ps) (spelled ps) (λ s. pieces-slashes ps s a.1 n) name h
pieces-slashes (star ∷ ps) name a n h =
    at_run-Slashed (λ x. not (x == 47)) (matches ps) (spelled ps) not_slash
      (λ s. pieces-slashes ps s a.1 n) name h
pieces-slashes (question ∷ ps) name a n h =
    at_rune-Slashed (λ x. not (x == 47)) (matches ps) (spelled ps) not_slash
      (λ s. pieces-slashes ps s a.1 n) name h
pieces-slashes (segments ∷ ps) name a n h = cc
pieces-slashes (rest ∷ ps) name a n h = cc
pieces-slashes (class negate ranges ∷ ps) name a n h =
    at_rune-Slashed (in_class negate ranges) (matches ps) (spelled ps) (a.0)
      (λ s. pieces-slashes ps s a.1 n) name h

-- Where a pattern compiles and has no `**` for whole segments, a name that it matches has as many slashes as
-- the pattern spells outside its classes: `*`, `?` and classes keep within a segment.
pub matches-slashes :
    (size : ℕ) (valid : Bool) (rs : List ℕ) (p : Pattern) (name : List ℕ)
    → compile size valid rs ≡ some p
    → is_narrow p.pieces ≡ true
    → matches p.pieces name ≡ true
    → slashes name ≡ spelled p.pieces
unfolding compile
matches-slashes size valid rs p name h n m =
    pieces-slashes p.pieces name
      (compile_runes-NoSlash true true 0 rs p
        (guard-none (length rs == 0 || ltb max_len size || not valid || any is_control rs) _ p h))
      n m
