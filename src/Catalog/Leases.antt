-- ===== src/Catalog/Leases.antt =====
-- catalog/catalog.go: AcquireLease, ReleaseLease, ReadLease. `now` is the clock at the call; a lease that
-- cannot be decoded counts as none. Ids stand as their 32 bytes.
use mathlib.Core.Path.{subst}
use dstore.Prelude.{
  ℕ, ◌+◌, ◌≤◌, ◌≡◌, refl, ap, inl, inr, ◌⊎◌, Bool, true, false, ◌&&◌, not, Option, none, some, [],
  ◌∷◌, ltb, if◌then◌else◌, length, arith, Bool-cases,
}
use dstore.Bytes.{Bytes, beq_bytes, beq_bytes_iff}
use dstore.Paxos.Ballot.{Ballot}
use dstore.Paxos.Proposer.{Row, ok, err}
use dstore.Paxos.Proposer.Propose.{
  Network, Change, commit, reject, in_round, in_change, propose, Failure, Outcome,
}
use dstore.Paxos.Proposer.Commit.{Committed, propose-Committed}
use dstore.Paxos.Proposer.Read.{read}
use dstore.Catalog.{
  Lease, no_lease, Codec, CatalogError, already_done, cas_mismatch, unknown_ref, no_view_yet,
  view_exists, bad_value, write_lost, aborted,
}
use dstore.Catalog.Refs.{Answer, answered, failed_with}

-- The register's name, "lease/maintenance".
abbrev pub lease_reg : Bytes
lease_reg =
    108 ∷ 101 ∷ 97 ∷ 115 ∷ 101 ∷ 47 ∷ 109 ∷ 97 ∷ 105 ∷ 110 ∷ 116 ∷ 101 ∷ 110 ∷ 97 ∷ 110 ∷ 99 ∷ 101
    ∷ []

module _ (C : Codec) where
  unfoldable pub row_lease : Row → Lease
  row_lease row =
      if row.has_value
      then elim (C.decode_lease row.value) [ none ↦ no_lease | some l ↦ l ]
      else no_lease

  -- What AcquireLease captures: `cur` and `held`.
  pub record Held : Type 0 where
    pub cur : Lease
    pub held : Bool

  module _ (self : Bytes) (ttl now : ℕ) where
    -- Whether another node's lease runs at `now`.
    unfoldable pub is_taken : Lease → Bool
    is_taken cur =
        ltb 0 (length cur.holder) && not (beq_bytes cur.holder self) && ltb now cur.expires

    abbrev pub own_lease : Lease
    own_lease = record { holder = self; expires = now + ttl }

    -- The change function of AcquireLease.
    unfoldable pub acquire_change : Held → Row → Ballot → Held × Change CatalogError
    unfolding row_lease is_taken
    acquire_change s row b =
        if is_taken (row_lease row)
        then (record { cur = row_lease row; held = s.held }, reject already_done)
        else (record { cur = own_lease; held = true }, commit (C.encode_lease own_lease) true)

    -- What AcquireLease returns of what it captured and the proposal's error.
    unfoldable pub acquire_answer : Held → Option (Failure CatalogError) → Answer Held
    acquire_answer s none = answered s
    acquire_answer s (some (in_change already_done)) =
        answered (record { cur = s.cur; held = false })
    acquire_answer s (some e) = failed_with e

    -- AcquireLease: whether self holds the lease afterwards, and the current lease.
    unfoldable pub acquire_lease : (N : Network) → ℕ → N.World → N.World × Answer Held
    unfolding acquire_change acquire_answer propose
    acquire_lease N attempts w =
        let done =
          propose N lease_reg acquire_change 0 attempts w
            (record { cur = no_lease; held = false }) in
        (done.0, acquire_answer done.1 done.2.error)

  module _ (self : Bytes) where
    unfoldable pub release_change : Unit {0} → Row → Ballot → Unit {0} × Change CatalogError
    unfolding row_lease
    release_change s row b =
        if not (beq_bytes (row_lease row).holder self)
        then (s, reject already_done)
        else (s, commit (C.encode_lease no_lease) true)

    -- ReleaseLease
    unfoldable pub release_lease : (N : Network) → ℕ → N.World → N.World × Answer (Unit {0})
    unfolding release_change propose
    release_lease N attempts w =
        let done = propose N lease_reg release_change 0 attempts w tt in
        elim done.2.error [
          | none ↦ (done.0, answered tt)
          | some (in_change already_done) ↦ (done.0, answered tt)
          | some e ↦ (done.0, failed_with e)
        ]

  -- ReadLease
  unfoldable pub read_lease : (N : Network) → ℕ → N.World → N.World × Answer Lease
  unfolding row_lease read
  read_lease N attempts w =
      let found = read N lease_reg attempts w in
      elim found.1 [
        | err e ↦ (found.0, failed_with (in_round e))
        | ok row ↦ (found.0, answered (row_lease row))
      ]

  -- A lease that is not another's is free, one's own, or expired.
  abbrev pub Available : Bytes → ℕ → Lease → Type 0
  Available self now l = (length l.holder ≡ 0) ⊎ (l.holder ≡ self) ⊎ (l.expires ≤ now)

  Available_lem :
      (self : Bytes) (ttl now : ℕ) (l : Lease)
      → is_taken self ttl now l ≡ false
      → Available self now l
  unfolding is_taken
  Available_lem self ttl now l h = elim (Bool-cases (beq_bytes l.holder self)) [
    | inl e ↦ inr (inl ((beq_bytes_iff l.holder self).0 e))
    | inr n ↦ ground arith
  ]

  -- What a commit by `acquire_change` leaves.
  abbrev Acquired : Bytes → ℕ → ℕ → Row → Ballot → Held × Change CatalogError → Type 0
  Acquired self ttl now row b (s', reject e) = Unit
  Acquired self ttl now row b (s', commit value has) =
      Available self now (row_lease row)
      × (row_lease (record { accepted = b; value = value; has_value = has })
          ≡ own_lease self ttl now)
      × (s'.held ≡ true)

  acquire_change-Acquired :
      (self : Bytes) (ttl now : ℕ) (s : Held) (row : Row) (b : Ballot)
      → Acquired self ttl now row b (acquire_change self ttl now s row b)
  unfolding acquire_change
  acquire_change-Acquired self ttl now s row b =
      elim (Bool-cases (is_taken self ttl now (row_lease row))) [
        | inl t ↦ rw t tt
        | inr f ↦ rw f (
          Available_lem self ttl now (row_lease row) f,
          rw (row_lease, C.lease_law (own_lease self ttl now)) refl,
          refl,
        )
      ]

  -- A committed acquisition took the place of a lease that was free, one's own, or expired, and the row
  -- that it leaves holds one's own lease.
  pub acquire_change-commit :
      (self : Bytes) (ttl now : ℕ) (s s' : Held) (row : Row) (b : Ballot) (value : Bytes)
      (has : Bool)
      → acquire_change self ttl now s row b ≡ (s', commit value has)
      → Available self now (row_lease row)
        × (row_lease (record { accepted = b; value = value; has_value = has })
            ≡ own_lease self ttl now)
        × (s'.held ≡ true)
  acquire_change-commit self ttl now s s' row b value has h =
      subst (Acquired self ttl now row b) h (acquire_change-Acquired self ttl now s row b)

  abbrev answer_held : Answer Held → Bool
  answer_held (answered h) = h.held
  answer_held (failed_with e) = true

  acquire_answer-held :
      (self : Bytes) (ttl now : ℕ) (s h : Held) (e : Option (Failure CatalogError))
      → acquire_answer self ttl now s e ≡ answered h
      → h.held ≡ true
      → (e ≡ none) × (s ≡ h)
  unfolding acquire_answer
  acquire_answer-held self ttl now s h none q t = (refl, cc)
  acquire_answer-held self ttl now s h (some (in_round e)) q t = cc
  acquire_answer-held self ttl now s h (some (in_change already_done)) q t =
      let e : false ≡ h.held = ap answer_held q in cc
  acquire_answer-held self ttl now s h (some (in_change (cas_mismatch m))) q t = cc
  acquire_answer-held self ttl now s h (some (in_change unknown_ref)) q t = cc
  acquire_answer-held self ttl now s h (some (in_change no_view_yet)) q t = cc
  acquire_answer-held self ttl now s h (some (in_change view_exists)) q t = cc
  acquire_answer-held self ttl now s h (some (in_change bad_value)) q t = cc
  acquire_answer-held self ttl now s h (some (in_change write_lost)) q t = cc
  acquire_answer-held self ttl now s h (some (in_change aborted)) q t = cc

  -- Where AcquireLease says that self holds the lease, a quorum promised and a quorum accepted: the best
  -- row promised held a lease that was free, one's own or expired, and the row accepted holds one's own.
  pub acquire_lease-Committed :
      (self : Bytes) (ttl now : ℕ) (N : Network) (attempts : ℕ) (w : N.World) (h : Held)
      → (acquire_lease self ttl now N attempts w).1 ≡ answered h
      → h.held ≡ true
      → (o : Outcome CatalogError) × (k : Committed N lease_reg (acquire_change self ttl now) 0 h o)
        × Available self now (row_lease k.cur)
        × (row_lease (record { accepted = o.ballot; value = o.value; has_value = o.has_value })
            ≡ own_lease self ttl now)
  unfolding acquire_lease
  acquire_lease-Committed self ttl now N attempts w h q t =
      let start : Held = record { cur = no_lease; held = false } in
      let done = propose N lease_reg (acquire_change self ttl now) 0 attempts w start in
      let (e, same) = acquire_answer-held self ttl now done.1 h done.2.error q t in
      let k =
        subst (λ (s : Held). Committed N lease_reg (acquire_change self ttl now) 0 s done.2) same
          (propose-Committed N lease_reg (acquire_change self ttl now) 0 attempts w start e) in
      let (free, own, _) =
        acquire_change-commit self ttl now k.before h k.cur done.2.ballot done.2.value
          done.2.has_value k.changed in
      (done.2, k, free, own)
