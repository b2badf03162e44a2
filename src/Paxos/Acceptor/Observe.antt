-- ===== src/Paxos/Acceptor/Observe.antt =====
-- What an acceptor's database says of a register, and what a stored row makes of it.
use dstore.Prelude.{
  ◌≡◌, refl, ◌⊎◌, inl, inr, ap, ◌∙◌, Option, some, [], ◌∷◌, arith, if◌then◌else◌, Option-cases,
}
use dstore.Bytes.{Bytes, beq_bytes, beq_bytes_iff}
use dstore.Wire.{Msg, err_msg, internal}
use dstore.Paxos.Ballot
use dstore.Paxos.Ballot.{
  Ballot, IsWord, is_zero, parse_ballot, parse_or_zero, ◌≼◌, ◌≺◌, zero_ballot,
}
use dstore.Paxos.Ballot.Encoding.{parse_ballot-bytes, parse_ballot-IsWord}
use dstore.Paxos.Disk.{Disk, Row, answer, put_row, row_after}
use dstore.Paxos.Acceptor.{
  Acceptor, row_or_empty, usable_ballot, row_promise, row_accepted, store_row,
}

-- Decoding what was written for a usable ballot gives it back.
pub parse_or_zero-bytes :
    (x : Bytes) (b : Ballot) → usable_ballot x ≡ some b → parse_or_zero (Ballot.bytes b) ≡ b
unfolding usable_ballot parse_or_zero
parse_or_zero-bytes x b h =
    rw (parse_ballot-bytes b (parse_ballot-IsWord x b (ground arith)), parse_or_zero)

-- A usable ballot is above the zero ballot.
pub zero_ballot-≺-usable_ballot :
    (x : Bytes) (b : Ballot) → usable_ballot x ≡ some b → zero_ballot ≺ b
unfolding usable_ballot is_zero
zero_ballot-≺-usable_ballot x b h = ground arith

module _ (D : Disk) where
  open D use {Db, row_at, read, commit, read_law, commit_rows}

  -- The promise, the accepted ballot, the value and the row of a register.
  abbrev pub promise_of : Acceptor D → Bytes → Ballot
  promise_of a reg = row_promise a.floor (row_at a.db reg)

  abbrev pub accepted_of : Acceptor D → Bytes → Ballot
  accepted_of a reg = row_accepted (row_at a.db reg)

  abbrev pub current_row : Acceptor D → Bytes → Row
  current_row a reg = row_or_empty (row_at a.db reg)

  -- A read that answers gives the stored row.
  pub read-row_at : (d : Db) (k : Bytes) (o : Option Row) → read d k ≡ answer o → o ≡ row_at d k
  read-row_at d k o h = ground (arith, read_law d k)

  -- The second acceptor's database holds `r` at `reg`, and elsewhere what the first's did; nothing else
  -- differs.
  pub record Stored (a : Acceptor D) (reg : Bytes) (r : Row) (a' : Acceptor D) : Type 0 where
    pub only_db : a' ≡ record a { db = a'.db }
    pub rows : (k : Bytes) → row_at a'.db k ≡ (if beq_bytes reg k then some r else row_at a.db k)

  pub store_row_cases :
      (a : Acceptor D) (reg : Bytes) (r : Row) (reply : Msg)
      → (store_row D a reg r reply ≡ (a, err_msg internal))
        ⊎ (Stored a reg r (store_row D a reg r reply).0 × ((store_row D a reg r reply).1 ≡ reply))
  unfolding store_row row_after
  store_row_cases a reg r reply = elim (Option-cases (commit a.db (put_row reg r ∷ []))) [
    | inl e ↦ inl (rw (e, store_row))
    | inr (d, e) ↦ inr (
      rw (e, store_row)
          (record { only_db = refl; rows = λ k. commit_rows a.db d (put_row reg r ∷ []) k e }),
      rw (e, store_row),
    )
  ]

  pub row_at-Stored_self :
      {a a' : Acceptor D} (reg : Bytes) {r : Row} → Stored a reg r a' → row_at a'.db reg ≡ some r
  row_at-Stored_self reg s = s.rows reg ∙ rw ((beq_bytes_iff reg reg).1 refl)

  pub floor-Stored :
      {a a' : Acceptor D} (reg : Bytes) (r : Row) → Stored a reg r a' → a'.floor ≡ a.floor
  floor-Stored reg r s = ap (λ (x : Acceptor D). x.floor) s.only_db
