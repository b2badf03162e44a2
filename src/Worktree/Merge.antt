-- ===== src/Worktree/Merge.antt =====
-- worktree/merge.go: which incoming changes are applied over the local ones. A path is its bytes; the map by
-- path holds the last change given for each.
pub mod Paths
pub mod Sorted
pub mod Safe
pub mod Covers
use dstore.Prelude.{
  ℕ, ◌-◌, Bool, true, false, ◌&&◌, ◌||◌, not, Option, none, some, List, [], ◌∷◌, ◌++◌, ◌==◌,
  Ordering, if◌then◌else◌, length, take,
}
use dstore.Bytes.{Bytes, beq_bytes, compare_bytes}
use dstore.Worktree.{
  Change, Entry, Kind, added, deleted, modified, type_changed, mode_changed, meta_changed, is_dir,
  equivalent,
}

pub record Conflict : Type 0 where
  pub path : Bytes
  pub local : Change
  pub incoming : Change

unfoldable pub later_or : Option Change → Change → Bytes → Option Change
later_or (some l) c p = some l
later_or none c p = if beq_bytes c.path p then some c else none

unfoldable pub by_path : List Change → Bytes → Option Change
unfolding later_or
by_path [] p = none
by_path (c ∷ cs) p = later_or (by_path cs p) c p

abbrev pub is_deleted : Kind → Bool
is_deleted deleted = true
is_deleted _ = false

abbrev pub is_retyped : Kind → Bool
is_retyped type_changed = true
is_retyped _ = false

abbrev pub is_meta : Kind → Bool
is_meta meta_changed = true
is_meta _ = false

-- Whether a local change takes the directory at its path away.
unfoldable pub takes_dir : Change → Bool
unfolding is_dir
takes_dir l = is_deleted l.kind || is_retyped l.kind && is_dir l.old

-- The directories above a path, the nearest first: p[:i] for the slashes p[i] with i > 0.
unfoldable pub parents_from : Bytes → Bytes → List Bytes
parents_from seen [] = []
parents_from seen (c ∷ cs) =
    let more = parents_from (seen ++ c ∷ []) cs in
    if c == 47 && not (length seen == 0) then more ++ seen ∷ [] else more

unfoldable pub gone_or : Option Change → Option Change → Option Change
unfolding takes_dir
gone_or none rest = rest
gone_or (some l) rest = if takes_dir l then some l else rest

unfoldable pub first_gone : List Change → List Bytes → Option Change
unfolding by_path gone_or
first_gone local [] = none
first_gone local (p ∷ ps) = gone_or (by_path local p) (first_gone local ps)

-- goneAbove
unfoldable pub gone_above : List Change → Bytes → Option Change
unfolding first_gone parents_from
gone_above local p = first_gone local (parents_from [] p)

abbrev pub is_below : Ordering → Bool
is_below Ordering.lt = true
is_below _ = false

-- sort.Strings
unfoldable pub insert_path : Bytes → List Bytes → List Bytes
insert_path p [] = p ∷ []
insert_path p (q ∷ qs) =
    let rest = insert_path p qs in if is_below (compare_bytes q p) then q ∷ rest else p ∷ q ∷ qs

unfoldable pub sort_paths : List Change → List Bytes
unfolding insert_path
sort_paths [] = []
sort_paths (c ∷ cs) = insert_path c.path (sort_paths cs)

unfoldable pub has_prefix : Bytes → Bytes → Bool
has_prefix [] p = true
has_prefix (x ∷ xs) [] = false
has_prefix (x ∷ xs) (c ∷ cs) = x == c && has_prefix xs cs

-- The first of sorted paths that is not below `x`, where `x` is a prefix of it.
unfoldable pub search_prefix : Bytes → List Bytes → Option Bytes
unfolding has_prefix
search_prefix x [] = none
search_prefix x (p ∷ ps) =
    let rest = search_prefix x ps in
    if is_below (compare_bytes p x) then rest else if has_prefix x p then some p else none

-- firstBelow
unfoldable pub found_path : List Change → Option Bytes → Option Change
unfolding by_path
found_path local none = none
found_path local (some p) = by_path local p

unfoldable pub first_below : List Change → Bytes → Option Change
unfolding search_prefix sort_paths found_path
first_below local p = found_path local (search_prefix (p ++ 47 ∷ []) (sort_paths local))

-- What Merge does with an incoming change.
pub data Verdict : Type 0 where
  applies drops : Verdict
  conflicts : Change → Verdict

-- Equivalent on the new sides, which are there where neither change is a deletion.
abbrev pub both_equivalent : Option Entry → Option Entry → Bool
both_equivalent (some a) (some b) = equivalent a b
both_equivalent _ _ = false

unfoldable pub against : Change → Change → Verdict
against l c =
    if is_meta l.kind
    then applies
    else if is_deleted l.kind && is_deleted c.kind
    then drops
    else if is_deleted l.kind || is_deleted c.kind
    then conflicts l
    else if both_equivalent l.new c.new
    then applies
    else conflicts l

unfoldable pub below_retyped : Option Change → Verdict
below_retyped none = applies
below_retyped (some l) = conflicts l

unfoldable pub alone : List Change → Option Change → Change → Verdict
unfolding first_below is_dir below_retyped
alone local (some l) c = if not (is_deleted c.kind) then conflicts l else drops
alone local none c =
    if is_retyped c.kind && is_dir c.old then below_retyped (first_below local c.path) else applies

unfoldable pub judge_at : List Change → Option Change → Change → Verdict
unfolding against alone gone_above
judge_at local (some l) c = against l c
judge_at local none c = alone local (gone_above local c.path) c

unfoldable pub judge : List Change → Change → Verdict
unfolding judge_at by_path
judge local c = judge_at local (by_path local c.path) c

unfoldable pub file_verdict :
    Change → Verdict → List Change × List Conflict → List Change × List Conflict
file_verdict c applies done = (c ∷ done.0, done.1)
file_verdict c drops done = done
file_verdict c (conflicts l) done =
    (done.0, record { path = c.path; local = l; incoming = c } ∷ done.1)

-- Merge
unfoldable pub merge : List Change → List Change → List Change × List Conflict
unfolding judge file_verdict
merge local [] = ([], [])
merge local (c ∷ cs) = file_verdict c (judge local c) (merge local cs)
