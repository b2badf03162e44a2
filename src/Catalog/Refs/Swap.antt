-- ===== src/Catalog/Refs/Swap.antt =====
-- RefPut as a compare-and-swap on the version of a reference.
use mathlib.Core.Path.{subst}
use dstore.Prelude.{
  ℕ, ◌≡◌, refl, sym, ◌∙◌, ap, inl, inr, Bool, true, false, ◌&&◌, not, Option, none, some, [],
  if◌then◌else◌, Bool-cases, some-ne-none,
}
use dstore.Bytes.{Bytes, beq_bytes, beq_bytes_iff}
use dstore.Paxos.Ballot
use dstore.Paxos.Ballot.{Ballot}
use dstore.Paxos.Proposer.{Row}
use dstore.Paxos.Proposer.Propose.{Network, Change, commit, reject, Outcome, propose}
use dstore.Paxos.Proposer.Commit.{Committed, propose-Committed}
use dstore.Catalog.{RefValue, is_tombstone, Codec, CatalogError, Cond, check, check_expected}
use dstore.Catalog.Refs.{ref_reg, row_ref, put_checked, put_decoded, put_change, key_if}

-- The version that a reader sees: none where the name is absent or deleted.
abbrev pub live_version : RefValue → Option Bytes
live_version rv = if is_tombstone rv then none else some rv.version

check_expected-none :
    (wanted : Option Bytes) (found : Bytes) (rv : RefValue) (gone : Bool)
    → check_expected wanted found rv (not gone) ≡ none
    → (if gone then none else some found) ≡ wanted
check_expected-none none found rv true = λ h. refl
check_expected-none none found rv false = λ h. some-ne-none h
check_expected-none (some v) found rv true = λ h. some-ne-none h
check_expected-none (some v) found rv false = elim (Bool-cases (beq_bytes v found)) [
  | inl e ↦ λ h. ap some (sym ((beq_bytes_iff v found).0 e))
  | inr n ↦ rw n (λ h. some-ne-none h)
]

check_versioned_eq :
    (cond : Cond) (rv : RefValue) (present : Bool) (key : Bytes)
    → cond.force ≡ false
    → cond.versioned ≡ true
    → check cond rv present key ≡ check_expected cond.expected_version rv.version rv present
unfolding check
check_versioned_eq cond rv present key f v = rw (f, v) refl

check-versioned :
    (cond : Cond) (rv : RefValue) (key : Bytes)
    → cond.force ≡ false
    → cond.versioned ≡ true
    → check cond rv (not (is_tombstone rv)) key ≡ none
    → live_version rv ≡ cond.expected_version
check-versioned cond rv key f v h =
    check_expected-none cond.expected_version rv.version rv (is_tombstone rv)
      (sym (check_versioned_eq cond rv (not (is_tombstone rv)) key f v) ∙ h)

module _ (C : Codec) (key_of : Bytes → Bytes) (content : Bytes) (cond : Cond) where
  abbrev put_ref : Bytes → RefValue
  put_ref version = record { content = content; deleted_at = 0; version = version }

  -- What a commit by `put_change` replaces and leaves.
  abbrev Replaced : Row → Ballot → Bytes × Change CatalogError → Type 0
  Replaced row b (version, reject e) = Unit
  Replaced row b (version, commit value has) =
      ((rv : RefValue) × (row_ref C row ≡ some rv)
        × (check cond rv (not (is_tombstone rv))
              (key_if C key_of content cond (not (is_tombstone rv)) rv)
            ≡ none))
      × (version ≡ Ballot.bytes b)
      × (C.decode_ref value ≡ some (put_ref version))
      × (has ≡ true)

  put_checked-Replaced :
      (old : Bytes) (row : Row) (b : Ballot) (rv : RefValue)
      → row_ref C row ≡ some rv
      → (c : Option CatalogError)
      → check cond rv
          (not (is_tombstone rv))
          (key_if C key_of content cond (not (is_tombstone rv)) rv)
        ≡ c
      → Replaced row b (put_checked C key_of content cond old rv (not (is_tombstone rv)) b c)
  unfolding put_checked
  put_checked-Replaced old row b rv r none h = ((rv, r, h), refl, C.ref_law _, refl)
  put_checked-Replaced old row b rv r (some e) h =
      elim (Bool-cases (not (is_tombstone rv) && beq_bytes rv.content content)) [
        | inl t ↦ rw t tt
        | inr f ↦ rw f tt
      ]

  put_decoded-Replaced :
      (old : Bytes) (row : Row) (b : Ballot) (o : Option RefValue)
      → row_ref C row ≡ o
      → Replaced row b (put_decoded C key_of content cond old b o)
  unfolding put_decoded
  put_decoded-Replaced old row b none r = tt
  put_decoded-Replaced old row b (some rv) r = put_checked-Replaced old row b rv r _ refl

  put_change-Replaced :
      (old : Bytes) (row : Row) (b : Ballot)
      → Replaced row b (put_change C key_of content cond old row b)
  unfolding put_change
  put_change-Replaced old row b = put_decoded-Replaced old row b (row_ref C row) refl

  -- The proposal of RefPut.
  abbrev pub put_run :
      (N : Network) → Bytes → ℕ → ℕ → N.World → N.World × Bytes × Outcome CatalogError
  put_run N name not_after attempts w =
      propose N (ref_reg name) (put_change C key_of content cond) not_after attempts w []

  module _ (N : Network) (name : Bytes) (not_after attempts : ℕ) (w : N.World) where
    -- Where the proposal of a versioned, unforced RefPut ends without an error, a quorum promised its ballot
    -- and a quorum accepted a value that holds the record with that ballot as its version; the best row
    -- promised had exactly the version expected, or was absent or deleted where none was expected.
    pub put-Committed :
        cond.force ≡ false
        → cond.versioned ≡ true
        → (put_run N name not_after attempts w).2.error ≡ none
        → (k : Committed N
            (ref_reg name)
            (put_change C key_of content cond)
            not_after
            (put_run N name not_after attempts w).1
            (put_run N name not_after attempts w).2)
          × ((rv : RefValue) × (row_ref C k.cur ≡ some rv)
              × (live_version rv ≡ cond.expected_version))
          × ((put_run N name not_after attempts w).1
              ≡ Ballot.bytes (put_run N name not_after attempts w).2.ballot)
          × (C.decode_ref (put_run N name not_after attempts w).2.value
              ≡ some (put_ref (put_run N name not_after attempts w).1))
    put-Committed f v e =
        let k =
          propose-Committed N (ref_reg name) (put_change C key_of content cond) not_after attempts w
            [] e in
        let ((rv, r, c), ver, dec, _) =
          subst (Replaced k.cur (put_run N name not_after attempts w).2.ballot) k.changed
            (put_change-Replaced k.before k.cur (put_run N name not_after attempts w).2.ballot) in
        (k, (rv, r, check-versioned cond rv _ f v c), ver, dec)
