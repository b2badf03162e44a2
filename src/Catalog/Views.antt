-- ===== src/Catalog/Views.antt =====
-- catalog/catalog.go: ReadView, CASView and InitView. A function that CASView applies to a clone of the view
-- is an `Edit`: the changed view with bumpEpoch, or its error.
use dstore.Prelude.{ℕ, ◌+◌, ◌%◌, ◌^◌, Bool, true, Option, none, some, [], ◌∷◌, ◌==◌, if◌then◌else◌}
use dstore.Bytes.{Bytes}
use dstore.View.{View}
use dstore.Paxos.Ballot.{Ballot}
use dstore.Paxos.Proposer.{Row, unknown_outcome, Round, ok, err}
use dstore.Paxos.Proposer.Propose.{
  Network, Change, commit, reject, Failure, in_round, in_change, propose, settle,
}
use dstore.Paxos.Proposer.Read.{read}
use dstore.Catalog.{Codec}

-- The register's name, "view".
abbrev pub view_reg : Bytes
view_reg = 118 ∷ 105 ∷ 101 ∷ 119 ∷ []

pub data Edit (E : Type 0) : Type 0 where
  edited : View → Bool → Edit E
  refused : E → Edit E

-- The errors of CASView: those of the function applied, and its own.
pub data ViewError (E : Type 0) : Type 0 where
  of_edit : E → ViewError E
  no_view_yet view_exists bad_view view_lost : ViewError E

-- The view that CASView commits for the function's result, over the version and the epoch read.
unfoldable pub stamped : View → View → Bool → View
stamped v nv bump = record nv {
  version = (v.version + 1) % 2 ^ 64;
  epoch = if bump then (v.epoch + 1) % 2 ^ 64 else nv.epoch;
}

-- What CASView returns: the view, when there is one, and the error.
pub record Answer (E : Type 0) : Type 0 where
  pub view : Option View
  pub error : Option (Failure (ViewError E))

module _ (C : Codec) {E : Type 0} (fn : View → Edit E) where
  -- The change function; the state is the captured `out`.
  unfoldable pub encoded : Option View → View → Option View × Change (ViewError E)
  encoded out nv = elim (C.encode_view nv) [
    | none ↦ (out, reject bad_view)
    | some bytes ↦ (some nv, commit bytes true)
  ]

  unfoldable pub applied : Option View → View → Edit E → Option View × Change (ViewError E)
  unfolding encoded stamped
  applied out v (refused e) = (some v, reject (of_edit e))
  applied out v (edited nv bump) = encoded out (stamped v nv bump)

  unfoldable pub cas_change : Option View → Row → Ballot → Option View × Change (ViewError E)
  unfolding applied
  cas_change out cur b =
      if cur.has_value
      then elim (C.decode_view cur.value) [
        | none ↦ (out, reject bad_view)
        | some v ↦ applied out v (fn v)
      ]
      else (out, reject no_view_yet)

  -- What CASView makes of the row that it settles after an unknown outcome, with `out` captured.
  unfoldable pub cas_settled : Option View → Round Row → Answer E
  cas_settled out (err e) = record { view = out; error = some (in_round unknown_outcome) }
  cas_settled out (ok row) =
      let unsure : Answer E = record { view = out; error = some (in_round unknown_outcome) } in
      if row.has_value
      then elim (C.decode_view row.value) [
        | none ↦ unsure
        | some v ↦ elim out [
          | none ↦ unsure
          | some o ↦
              if v.version == o.version
              then record { view = some v; error = none }
              else record { view = some v; error = some (in_change view_lost) }
        ]
      ]
      else unsure

  unfoldable pub cas_view : (N : Network) → ℕ → N.World → N.World × Answer E
  unfolding cas_change cas_settled propose settle
  cas_view N attempts w =
      let done = propose N view_reg cas_change 0 attempts w none in
      elim done.2.error [
        | some (in_round unknown_outcome) ↦
            let settled = settle N view_reg attempts done.0 in
            (settled.0, cas_settled done.1 settled.1)
        | some e ↦ (done.0, record { view = done.1; error = some e })
        | none ↦ elim (C.decode_view done.2.value) [
          | none ↦ (done.0, record { view = none; error = some (in_change bad_view) })
          | some v ↦ (done.0, record { view = some v; error = none })
        ]
      ]

-- The change function of InitView, once the view is encoded.
unfoldable pub init_change :
    {E : Type 0} → Bytes → Unit {0} → Row → Ballot → Unit {0} × Change (ViewError E)
init_change bytes s cur b =
    if cur.has_value then (s, reject view_exists) else (s, commit bytes true)

-- What ReadView makes of the row.
unfoldable pub view_of_row : {E : Type 0} → Codec → Round Row → Answer E
view_of_row C (err e) = record { view = none; error = some (in_round e) }
view_of_row C (ok row) =
    if row.has_value
    then elim (C.decode_view row.value) [
      | none ↦ record { view = none; error = some (in_change bad_view) }
      | some v ↦ record { view = some v; error = none }
    ]
    else record { view = none; error = some (in_change no_view_yet) }

unfoldable pub read_view : {E : Type 0} → Codec → (N : Network) → ℕ → N.World → N.World × Answer E
unfolding view_of_row read
read_view C N attempts w =
    let found = read N view_reg attempts w in (found.0, view_of_row C found.1)

unfoldable pub init_view :
    {E : Type 0}
    → Codec
    → View
    → (N : Network) → ℕ
    → N.World
    → N.World × Option (Failure (ViewError E))
unfolding init_change propose
init_view {E} C v N attempts w = elim (C.encode_view v) [
  | none ↦ (w, some (in_change bad_view))
  | some bytes ↦
      let done = propose N view_reg (init_change {E = E} bytes) 0 attempts w tt in
      (done.0, done.2.error)
]
