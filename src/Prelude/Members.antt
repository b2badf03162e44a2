-- ===== src/Prelude/Members.antt =====
-- Membership of numbers in lists, empty lists and Boolean tests.
use Prim.Native.Nat.{ℕ}
use mathlib.Core.Logic.{◌⊎◌}
use mathlib.Core.Path.{◌≡◌, refl}
use mathlib.Core.Bool.{Bool, true, false, ◌&&◌, ◌||◌}
use mathlib.Core.List.{List, [], ◌∷◌, ◌++◌}
use native.Mathlib.Omega.{arith}
use dstore.Prelude.Tests.{◌==◌, ==_iff}
use dstore.Prelude.Lists.{elem, length}

pub elem-append : (a : ℕ) (xs ys : List ℕ) → elem a (xs ++ ys) ≡ (elem a xs || elem a ys)
elem-append a [] ys = refl
elem-append a (x ∷ xs) ys = ground (arith, elem-append a xs ys)

pub elem-first : (k : ℕ) (ks : List ℕ) → elem k (k ∷ ks) ≡ true
elem-first k ks = rw ((==_iff k k).1 refl) refl

pub elem-head : (a k : ℕ) (xs : List ℕ) → a ≡ k → elem a (k ∷ xs) ≡ true
elem-head a k xs e = ground arith

pub elem-cons : (a k : ℕ) (xs : List ℕ) → elem a xs ≡ true → elem a (k ∷ xs) ≡ true
elem-cons a k xs h = ground arith

pub cons-elem : (a k : ℕ) (xs : List ℕ) → elem a (k ∷ xs) ≡ true → (a ≡ k) ⊎ (elem a xs ≡ true)
cons-elem a k xs h = ground arith

pub one-elem : (a k : ℕ) → elem a (k ∷ []) ≡ true → a ≡ k
one-elem a k h = ground arith

pub append-elem :
    (a : ℕ) (xs ys : List ℕ) → elem a (xs ++ ys) ≡ true → (elem a xs ≡ true) ⊎ (elem a ys ≡ true)
append-elem a xs ys h = ground (arith, elem-append a xs ys)

pub elem-left : (a : ℕ) (xs ys : List ℕ) → elem a xs ≡ true → elem a (xs ++ ys) ≡ true
elem-left a xs ys h = ground (arith, elem-append a xs ys)

pub elem-right : (a : ℕ) (xs ys : List ℕ) → elem a ys ≡ true → elem a (xs ++ ys) ≡ true
elem-right a xs ys h = ground (arith, elem-append a xs ys)

pub length-nil {ℓ} : {A : Type ℓ} (xs : List A) → (length xs == 0) ≡ true → xs ≡ []
length-nil [] h = refl
length-nil (x ∷ xs) h = absurd (ground arith)

pub or-right : (a b : Bool) → (a || b) ≡ true → a ≡ false → b ≡ true
or-right true b h f = cc
or-right false b h f = h

pub and-both : (a b : Bool) → (a && b) ≡ true → (a ≡ true) × (b ≡ true)
and-both true true h = (refl, refl)
and-both true false h = cc
and-both false b h = cc
