-- ===== src/Node/Gc/Sweep.antt =====
-- node/gc.go on a node: when poll starts a sweep, and what the sweep keeps (live, provedDead). Whether a
-- key is corrupt or pinned and whether a pack is settled are the answers of the node's other parts. Keys
-- and ids are numbers, a map from keys is an association list.
use dstore.Prelude.{
  ℕ, ◌+◌, ◌-◌, ◌*◌, ◌%◌, ◌^◌, Bool, true, false, ◌&&◌, ◌||◌, not, Option, none, some, List, [], ◌∷◌,
  ltb, leb, ◌==◌, if◌then◌else◌, elem,
}
use dstore.View.{View, contains}
use dstore.View.Tables.{in_write_set}
use dstore.Catalog.GcState.{GcState}
use dstore.Node.Gc.Register.{is_sweeping, has_reported, quarter}

-- The last place of an id, 0 where it has none: the loop over `Acked` in poll.
unfoldable pub last_place : ℕ → ℕ → ℕ → List ℕ → ℕ
last_place pos i id [] = pos
last_place pos i id (x ∷ xs) = last_place (if x == id then i else pos) (i + 1) id xs

-- Whether poll starts a sweep on node `self`, which has swept the epochs `swept`.
unfoldable pub poll_starts : List ℕ → Bool → ℕ → GcState → Bool
unfolding is_sweeping contains last_place quarter
poll_starts swept busy self g =
    if not (is_sweeping g.phase) || not (contains g.acked self)
    then false
    else if elem g.epoch swept || busy || has_reported g self
    then false
    else ltb (last_place 0 0 self g.acked) (g.sweep_wave * quarter g)

-- The pack of a key in an index.
unfoldable pub pack_of : ℕ → List (ℕ × ℕ) → Option ℕ
pack_of k [] = none
pack_of k (e ∷ es) = if e.0 == k then some (e.1) else pack_of k es

pub record SweepInput : Type 0 where
  pub epoch : ℕ
  pub count : ℕ
  pub elig_below : ℕ
  pub placement : View
  pub eligible : List (ℕ × ℕ)
  pub marked : List ℕ
  pub overflow : Bool

-- What the sweep asks of the rest of the node: `pinned k below` and `settled pack`.
pub record Local : Type 0 where
  pub self : ℕ
  pub salt : ℕ → ℕ
  pub is_corrupt : ℕ → Bool
  pub pinned : ℕ → ℕ → Bool
  pub settled : ℕ → View → Bool

module _ (n : Local) where
  unfoldable pub live_in : SweepInput → View → ℕ → ℕ → Bool
  unfolding in_write_set
  live_in si cur k pack =
      if leb si.elig_below pack || n.pinned k ((si.count + (2 ^ 64 - 1)) % 2 ^ 64)
      then true
      else if in_write_set n.salt si.placement k n.self
      then elem k si.marked || si.overflow
      else in_write_set n.salt cur k n.self || not (n.settled pack cur)

  unfoldable pub live : SweepInput → View → ℕ → Bool
  unfolding live_in pack_of
  live si cur k =
      if n.is_corrupt k
      then false
      else elim (pack_of k si.eligible) [ none ↦ true | some pack ↦ live_in si cur k pack ]

  unfoldable pub dead_in : SweepInput → ℕ → ℕ → Option ℕ → Bool
  dead_in si k pack none = false
  dead_in si k pack (some p) =
      if not (p == pack) || leb si.elig_below p
      then false
      else not (elem k si.marked) && not (n.pinned k ((si.count + (2 ^ 64 - 1)) % 2 ^ 64))

  unfoldable pub proved_dead : Option SweepInput → ℕ → ℕ → Bool
  unfolding dead_in pack_of in_write_set
  proved_dead none k pack = false
  proved_dead (some si) k pack =
      if si.overflow || not (in_write_set n.salt si.placement k n.self)
      then false
      else dead_in si k pack (pack_of k si.eligible)
