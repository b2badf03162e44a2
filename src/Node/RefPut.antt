-- ===== src/Node/RefPut.antt =====
-- node/refs.go: what a node checks before it writes a reference (walkComplete, negotiateComplete). Whether a key
-- is of a leaf, what getData with ChildKeys gives for a key, and what an owner answers in a round of the
-- negotiation are parameters; a round is counted so that an owner may answer otherwise later. Times are
-- nanoseconds.
pub mod Checked
pub mod Results
pub mod Ends
pub mod Enough
pub mod Fuel
pub mod Sample
pub mod Handler
pub mod Answers
use dstore.Prelude.{
  ℕ, zero, suc, ◌+◌, ◌-◌, ◌/◌, ◌^◌, Bool, true, false, ◌&&◌, ◌||◌, not, Option, none, some, List,
  [], ◌∷◌, ◌++◌, ltb, leb, ◌==◌, if◌then◌else◌, elem, length, count,
}
use dstore.View.{View, Pending}
use dstore.View.Tables.{write_set, current_owners, pending_owners}
use dstore.Node.Gc.Mark.{max_keys}

-- getData and ChildKeys: the children, no data that could be had, or data that is refused.
pub data Fetched : Type 0 where
  found : (kids : List ℕ) → Fetched
  absent malformed : Fetched

pub data WalkError : Type 0 where
  bad_object unread_object : WalkError

-- The state of the walk: its variables, and the number of the next round of negotiation.
pub record Walk : Type 0 where
  pub seen : List ℕ
  pub to_check : List ℕ
  pub unread : List ℕ
  pub missing : List ℕ
  pub shortfall : ℕ
  pub round : ℕ

pub data Walked : Type 0 where
  walked : (w : Walk) → Walked
  failed : (e : WalkError) → Walked
  out_of_fuel : Walked

pub data Level : Type 0 where
  goes : (w : Walk) (next : List ℕ) → Level
  stops : (e : WalkError) → Level

abbrev pub least : ℕ → ℕ → ℕ
least a b = if ltb b a then b else a

-- completeSince, the zero time where there is no entry.
unfoldable pub complete_since : List (ℕ × ℕ) → ℕ → ℕ
complete_since [] k = 0
complete_since (e ∷ es) k = if e.0 == k then e.1 else complete_since es k

-- completeSince(k).After(cutoff): verified since the cutoff.
unfoldable pub is_complete : (cutoff : ℕ) → List (ℕ × ℕ) → ℕ → Bool
unfolding complete_since
is_complete cutoff cache k = ltb cutoff (complete_since cache k)

abbrev pub no_walk : Walk
no_walk = record { seen = []; to_check = []; unread = []; missing = []; shortfall = 0; round = 0 }

module _ (salt : ℕ → ℕ) (v : View) (ask : ℕ → ℕ → List ℕ → Option (List ℕ)) where
  -- byOwner: the keys of the batch that an owner is asked about.
  unfoldable pub asked : ℕ → List ℕ → List ℕ
  unfolding write_set
  asked o [] = []
  asked o (k ∷ ks) = let rest = asked o ks in if elem o (write_set salt v k) then k ∷ rest else rest

  abbrev pub not_lacking : ℕ → Option (List ℕ) → Bool
  not_lacking k none = false
  not_lacking k (some lacking) = not (elem k lacking)

  -- Whether the owner says that it holds the key.
  unfoldable pub holds : ℕ → List ℕ → ℕ → ℕ → Bool
  unfolding asked
  holds round keys k o =
      if length (asked o keys) == 0 then false else not_lacking k (ask round o (asked o keys))

  unfoldable pub short_among : ℕ → List ℕ → ℕ → List ℕ → Bool
  unfolding holds
  short_among round keys k owners =
      ltb (count (holds round keys k) owners) (least v.min_replicas (length owners))

  unfoldable pub is_short : ℕ → List ℕ → ℕ → Bool
  unfolding short_among current_owners pending_owners
  is_short round keys k =
      short_among round keys k (current_owners salt v k)
      || short_among round keys k (pending_owners salt v.pending k)

  -- The keys of a batch that are short.
  unfoldable pub short_of : ℕ → List ℕ → List ℕ → List ℕ
  unfolding is_short
  short_of round keys [] = []
  short_of round keys (k ∷ ks) =
      let rest = short_of round keys ks in if is_short round keys k then k ∷ rest else rest

  unfoldable pub negotiate_complete : ℕ → List ℕ → List ℕ
  unfolding short_of
  negotiate_complete round keys = short_of round keys keys

  -- The sample holds 1024 keys at most.
  unfoldable pub add_missing : List ℕ → List ℕ → List ℕ
  add_missing missing [] = missing
  add_missing missing (k ∷ ks) =
      add_missing (if ltb (length missing) 1024 then missing ++ k ∷ [] else missing) ks

  -- Some key of the batch could not be read, and is not short.
  unfoldable pub held_unread : List ℕ → List ℕ → List ℕ → Bool
  held_unread unread short [] = false
  held_unread unread short (k ∷ ks) =
      elem k unread && not (elem k short) || held_unread unread short ks

  -- None where the walk fails: an object is held and could not be read.
  unfoldable pub flush : Walk → Option Walk
  unfolding negotiate_complete add_missing held_unread
  flush w =
      let short = negotiate_complete w.round w.to_check in
      if length w.to_check == 0
      then some w
      else if held_unread w.unread short w.to_check
      then none
      else some (record w {
        to_check = [];
        missing = add_missing w.missing short;
        shortfall = w.shortfall + length short;
        round = w.round + 1;
      })

  module _ (is_leaf : ℕ → Bool) (fetch : ℕ → Fetched) (is_cached : ℕ → Bool) where
    -- The loop over the frontier: new keys are noted, those to fetch are collected.
    unfoldable pub note_key : ℕ → Walk × List ℕ → Walk × List ℕ
    note_key k s = if elem k s.0.seen then s else (
      record (s.0) { seen = k ∷ s.0.seen; to_check = s.0.to_check ++ k ∷ [] },
      if is_leaf k || is_cached k then s.1 else s.1 ++ k ∷ [],
    )

    unfoldable pub note_keys : List ℕ → Walk × List ℕ → Walk × List ℕ
    unfolding note_key
    note_keys [] s = s
    note_keys (k ∷ ks) s = note_keys ks (note_key k s)

    -- The loop over the results: the walk, and the next frontier.
    unfoldable pub expand : List ℕ → Walk → List ℕ → Option (Walk × List ℕ)
    expand [] w out = some (w, out)
    expand (k ∷ ks) w out = elim (fetch k) [
      | found kids ↦ expand ks w (out ++ kids)
      | absent ↦ expand ks (record w { unread = k ∷ w.unread }) out
      | malformed ↦ none
    ]

    unfoldable pub flush_full : Walk → Option Walk
    unfolding flush
    flush_full w = if leb max_keys (length w.to_check) then flush w else some w

    unfoldable pub goes_to : List ℕ → Option Walk → Level
    goes_to out none = stops unread_object
    goes_to out (some w) = goes w out

    unfoldable pub expanded : Option (Walk × List ℕ) → Level
    unfolding goes_to flush_full
    expanded none = stops bad_object
    expanded (some r) = goes_to (r.1) (flush_full (r.0))

    -- One level of the tree.
    unfoldable pub one_level : List ℕ → Walk → Level
    unfolding note_keys expand expanded
    one_level front w = let s = note_keys front (w, []) in expanded (expand (s.1) (s.0) [])

    unfoldable pub ended : Option Walk → Walked
    ended none = failed unread_object
    ended (some w) = walked w

    unfoldable pub go_on : (List ℕ → Walk → Walked) → Level → Walked
    go_on rest (stops e) = failed e
    go_on rest (goes w out) = rest out w

    -- The loop over the levels, as many as `fuel`.
    unfoldable pub levels : (fuel : ℕ) → List ℕ → Walk → Walked
    unfolding one_level go_on ended flush
    levels n [] w = ended (flush w)
    levels zero (k ∷ ks) w = out_of_fuel
    levels (suc n) (k ∷ ks) w = go_on (λ out w'. levels n out w') (one_level (k ∷ ks) w)

    -- The walk from the root; what it caches where nothing is short.
    unfoldable pub walk_complete : (fuel root : ℕ) → Walked
    unfolding levels
    walk_complete fuel root = levels fuel (root ∷ []) no_walk

    unfoldable pub cache_seen : ℕ → List ℕ → List (ℕ × ℕ) → List (ℕ × ℕ)
    cache_seen now [] cache = cache
    cache_seen now (k ∷ ks) cache =
        if is_leaf k then cache_seen now ks cache else (k, now) ∷ cache_seen now ks cache

    -- The cache is emptied where it holds more than 2 ^ 20 keys; `size` counts them.
    unfoldable pub cache_after : (List (ℕ × ℕ) → ℕ) → ℕ → Walk → List (ℕ × ℕ) → List (ℕ × ℕ)
    unfolding cache_seen
    cache_after size now w cache =
        let cached = cache_seen now w.seen cache in
        if not (w.shortfall == 0) then cache else if ltb (2 ^ 20) (size cached) then [] else cached
