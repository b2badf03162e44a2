-- ===== src/Catalog/Refs.antt =====
-- catalog/catalog.go: RefGet, RefPut and RefDelete, over the proposals of Paxos/Proposer/Propose.antt.
pub mod Swap
use dstore.Prelude.{
  ℕ, Bool, true, false, ◌&&◌, ◌||◌, not, Option, none, some, [], ◌∷◌, ◌++◌, if◌then◌else◌,
}
use dstore.Bytes.{Bytes, beq_bytes}
use dstore.Paxos.Ballot
use dstore.Paxos.Ballot.{Ballot, zero_ballot}
use dstore.Paxos.Proposer.{Row, RoundError, unknown_outcome, Round, ok, err}
use dstore.Paxos.Proposer.Propose.{
  Network, Change, commit, reject, Failure, in_round, in_change, Outcome, propose, settle,
}
use dstore.Paxos.Proposer.Read.{read}
use dstore.Catalog.{
  RefValue, no_ref, is_tombstone, Codec, CatalogError, unknown_ref, bad_value, already_done,
  write_lost, Cond, check,
}

-- RefReg
unfoldable pub ref_reg : Bytes → Bytes
ref_reg name = 114 ∷ 101 ∷ 102 ∷ 47 ∷ name

-- A result of the catalog.
pub data Answer (A : Type 0) : Type 0 where
  answered : A → Answer A
  failed_with : Failure CatalogError → Answer A

abbrev is_some : {A : Type 0} → Option A → Bool
is_some none = false
is_some (some a) = true

module _ (C : Codec) where
  -- The value of a reference's row: RefValue{} where it has none. It is present unless it is a tombstone.
  unfoldable pub row_ref : Row → Option RefValue
  row_ref cur = if cur.has_value then C.decode_ref cur.value else some no_ref

  module _ (key_of : Bytes → Bytes) (content : Bytes) (cond : Cond) where
    abbrev pub key_if : Bool → RefValue → Bytes
    key_if present rv = if present then key_of rv.content else []

    -- The change function of RefPut, once the row is decoded; the state is `version`.
    unfoldable pub put_checked :
        Bytes → RefValue → Bool → Ballot → Option CatalogError → Bytes × Change CatalogError
    put_checked version rv present b none = (
      Ballot.bytes b,
      commit (C.encode_ref (record { content = content; deleted_at = 0; version = Ballot.bytes b }))
          true,
    )
    put_checked version rv present b (some e) =
        if present && beq_bytes rv.content content
        then (rv.version, reject already_done)
        else (version, reject e)

    unfoldable pub put_decoded : Bytes → Ballot → Option RefValue → Bytes × Change CatalogError
    unfolding put_checked check is_tombstone
    put_decoded version b none = (version, reject bad_value)
    put_decoded version b (some rv) =
        let present = not (is_tombstone rv) in
        put_checked version rv present b (check cond rv present (key_if present rv))

    unfoldable pub put_change : Bytes → Row → Ballot → Bytes × Change CatalogError
    unfolding row_ref put_decoded
    put_change version cur b = put_decoded version b (row_ref cur)

    -- What RefPut makes of the row that it settles after an unknown outcome.
    unfoldable pub put_settled : Round Row → Answer Bytes
    unfolding row_ref
    put_settled (err e) = failed_with (in_round unknown_outcome)
    put_settled (ok row) =
        let lost = failed_with (in_change write_lost) in
        if row.has_value
        then elim (C.decode_ref row.value) [
          | none ↦ lost
          | some rv ↦ if beq_bytes rv.content content then answered rv.version else lost
        ]
        else lost

    -- RefPut
    unfoldable pub ref_put : (N : Network) → Bytes → ℕ → ℕ → N.World → N.World × Answer Bytes
    unfolding put_change put_settled propose settle
    ref_put N name not_after attempts w =
        let done = propose N (ref_reg name) put_change not_after attempts w [] in
        elim done.2.error [
          | none ↦ (done.0, answered done.1)
          | some (in_change already_done) ↦ (done.0, answered done.1)
          | some (in_change e) ↦ (done.0, failed_with (in_change e))
          | some (in_round unknown_outcome) ↦
              let settled = settle N (ref_reg name) attempts done.0 in
              (settled.0, put_settled settled.1)
          | some (in_round e) ↦ (done.0, failed_with (in_round e))
        ]

  -- The change function of RefDelete; `now` is the clock.
  module _ (key_of : Bytes → Bytes) (cond : Cond) (now : ℕ) where
    -- Whether the condition expects a name that is there.
    abbrev pub expects_name : Bool
    expects_name =
        cond.force
        || cond.versioned && is_some cond.expected_version
        || cond.keyed && is_some cond.expected_old

    unfoldable pub delete_decoded : Ballot → Option RefValue → Change CatalogError
    unfolding check is_tombstone
    delete_decoded b none = reject bad_value
    delete_decoded b (some rv) =
        let present = not (is_tombstone rv) in
        let cur_key : Bytes = if present then key_of rv.content else [] in
        let tombstone : RefValue = record {
          content = [];
          deleted_at = now;
          version = Ballot.bytes b;
        } in
        if not present && expects_name
        then reject already_done
        else elim (check cond rv present cur_key) [
          | some e ↦ reject e
          | none ↦ if not present then reject already_done else commit (C.encode_ref tombstone) true
        ]

    unfoldable pub delete_change : Unit {0} → Row → Ballot → Unit {0} × Change CatalogError
    unfolding row_ref delete_decoded
    delete_change s cur b = (s, delete_decoded b (row_ref cur))

    unfoldable pub delete_settled : Round Row → Answer Ballot
    unfolding is_tombstone
    delete_settled (err e) = failed_with (in_round unknown_outcome)
    delete_settled (ok row) =
        let unsure = failed_with (in_round unknown_outcome) in
        if row.has_value
        then elim (C.decode_ref row.value) [
          | none ↦ unsure
          | some rv ↦ if is_tombstone rv then answered row.accepted else unsure
        ]
        else unsure

    -- RefDelete
    unfoldable pub ref_delete : (N : Network) → Bytes → ℕ → N.World → N.World × Answer Ballot
    unfolding delete_change delete_settled propose settle
    ref_delete N name attempts w =
        let done = propose N (ref_reg name) delete_change 0 attempts w tt in
        elim done.2.error [
          | none ↦ (done.0, answered done.2.ballot)
          | some (in_change already_done) ↦ (done.0, answered zero_ballot)
          | some (in_change e) ↦ (done.0, failed_with (in_change e))
          | some (in_round unknown_outcome) ↦
              let settled = settle N (ref_reg name) attempts done.0 in
              (settled.0, delete_settled settled.1)
          | some (in_round e) ↦ (done.0, failed_with (in_round e))
        ]

  -- RefGet
  unfoldable pub get_value : Round Row → Answer RefValue
  unfolding is_tombstone
  get_value (err e) = failed_with (in_round e)
  get_value (ok row) =
      if row.has_value
      then elim (C.decode_ref row.value) [
        | none ↦ failed_with (in_change bad_value)
        | some rv ↦ if is_tombstone rv then failed_with (in_change unknown_ref) else answered rv
      ]
      else failed_with (in_change unknown_ref)

  unfoldable pub ref_get : (N : Network) → Bytes → ℕ → N.World → N.World × Answer RefValue
  unfolding get_value read
  ref_get N name attempts w =
      let found = read N (ref_reg name) attempts w in (found.0, get_value found.1)
