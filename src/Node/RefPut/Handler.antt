-- ===== src/Node/RefPut/Handler.antt =====
-- node/refs.go: the handlers of references (handleRefPut, handleRefGet, handleRefDelete), the condition of a request
-- (condOf), the replies to the catalog's errors (catalogErr), and checkEpoch of node/server.go. What the
-- package reference makes of a record is an argument, and so are the two views that checkEpoch looks at.
use dstore.Prelude.{
  ℕ, Bool, true, false, ◌&&◌, ◌||◌, not, Option, none, some, List, take, length, ◌==◌,
  if◌then◌else◌, Ordering,
}
use dstore.Bytes.{Bytes, beq_bytes}
use dstore.View
use dstore.View.{View}
use dstore.Paxos.Ballot.{Ballot}
use dstore.Paxos.Proposer.{deadline, expired_error}
use dstore.Paxos.Proposer.Propose.{Network, Failure, in_round, in_change}
use dstore.Catalog.{RefValue, Codec, CatalogError, cas_mismatch, unknown_ref, Cond}
use dstore.Catalog.Refs.{Answer, answered, failed_with, ref_put, ref_get, ref_delete}
use dstore.Node.RefPut.{Walked, walked, failed, out_of_fuel, WalkError, bad_object, unread_object}

-- The fields of a request that the handlers read.
pub record RefMsg : Type 0 where
  pub name : Bytes
  pub content : Bytes
  pub force : Bool
  pub has_expected : Bool
  pub expected_version : Option Bytes
  pub expected_old : Option Bytes
  pub version : Option Bytes
  pub cluster_id : Bytes
  pub incarnation : ℕ
  pub epoch : ℕ

pub data RefReply : Type 0 where
  bad_request is_stale timed_out is_unavailable no_such_ref : RefReply
  incomplete : (sample : List ℕ) (shortfall : ℕ) → RefReply
  mismatched : Option RefValue → RefReply
  put_ok : (key : ℕ) (version : Bytes) → RefReply
  deleted : RefReply
  found_ref : RefValue → RefReply

abbrev is_none : Option Bytes → Bool
is_none none = true
is_none (some b) = false

-- condOf
unfoldable pub expected_cond : RefMsg → Cond → Cond
expected_cond m c =
    if not (is_none m.expected_version) || is_none m.expected_old && is_none m.version
    then record c { versioned = true; expected_version = m.expected_version }
    else c

unfoldable pub keyed_cond : RefMsg → Cond → Cond
keyed_cond m c =
    if not (is_none m.expected_old)
    then record c { keyed = true; expected_old = m.expected_old; versioned = false }
    else c

unfoldable pub cond_of : RefMsg → Cond
unfolding expected_cond keyed_cond
cond_of m =
    let c : Cond = record {
      expected_version = none;
      versioned = false;
      expected_old = none;
      keyed = false;
      force = m.force;
    } in
    if m.has_expected then keyed_cond m (expected_cond m c) else c

-- catalogErr
unfoldable pub catalog_err : Failure CatalogError → RefReply
catalog_err (in_change (cas_mismatch cur)) = mismatched cur
catalog_err (in_change unknown_ref) = no_such_ref
catalog_err (in_round deadline) = timed_out
catalog_err (in_round expired_error) = timed_out
catalog_err _ = is_unavailable

pub data EpochCheck : Type 0 where
  fits epoch_stale other_epoch : EpochCheck

abbrev behind : Ordering → EpochCheck
behind Ordering.lt = other_epoch
behind Ordering.gt = epoch_stale
behind Ordering.eq = fits

-- checkEpoch: `v` is the node's view, `nv` the one after a refresh.
unfoldable pub compare_epoch : RefMsg → View → View → EpochCheck
unfolding View.compare
compare_epoch m v nv =
    if not (length m.cluster_id == 0) && not (beq_bytes m.cluster_id v.cluster_id)
    then other_epoch
    else elim (View.compare v m.incarnation m.epoch) [
      | Ordering.gt ↦ epoch_stale
      | Ordering.lt ↦ behind (View.compare nv m.incarnation m.epoch)
      | Ordering.eq ↦ fits
    ]

unfoldable pub check_epoch : RefMsg → Option View → View → EpochCheck
unfolding compare_epoch
check_epoch m none nv = epoch_stale
check_epoch m (some v) nv = compare_epoch m v nv

-- What the package reference finds in a record.
pub record Decoded : Type 0 where
  pub key : ℕ
  pub name : Bytes
  -- A key of 32 bytes that key.Parse takes, and a name that ValidateName takes.
  pub key_fits : Bool
  pub name_fits : Bool

abbrev walk_failed : WalkError → RefReply
walk_failed bad_object = bad_request
walk_failed unread_object = is_unavailable

module _ (C : Codec) (key_of : Bytes → Bytes) (N : Network) (attempts : ℕ) where
  abbrev put_answer : ℕ → Answer Bytes → RefReply
  put_answer key (answered version) = put_ok key version
  put_answer key (failed_with e) = catalog_err e

  -- handleRefPut once the walk has returned. A walk returns within its fuel, which the code does not count:
  -- the last answer stands for none of it.
  unfoldable pub put_walked : RefMsg → Decoded → ℕ → Walked → N.World → N.World × RefReply
  unfolding ref_put cond_of catalog_err
  put_walked m rec not_after (failed e) w = (w, walk_failed e)
  put_walked m rec not_after out_of_fuel w = (w, timed_out)
  put_walked m rec not_after (walked done) w =
      let put = ref_put C key_of m.content (cond_of m) N rec.name not_after attempts w in
      if not (length done.missing == 0)
      then (w, incomplete (take 64 done.missing) done.shortfall)
      else (put.0, put_answer rec.key put.1)

  unfoldable pub put_in_epoch :
      RefMsg → Decoded → (ℕ → Walked) → ℕ → N.World → EpochCheck → N.World × RefReply
  unfolding put_walked
  put_in_epoch m rec walk not_after w epoch_stale = (w, is_stale)
  put_in_epoch m rec walk not_after w fits = put_walked m rec not_after (walk rec.key) w
  put_in_epoch m rec walk not_after w other_epoch = put_walked m rec not_after (walk rec.key) w

  -- handleRefPut: `walk` is walkComplete from a root.
  unfoldable pub handle_ref_put :
      RefMsg → Option Decoded → EpochCheck → (ℕ → Walked) → ℕ → N.World → N.World × RefReply
  unfolding put_in_epoch
  handle_ref_put m none epoch walk not_after w = (w, bad_request)
  handle_ref_put m (some rec) epoch walk not_after w =
      if not rec.key_fits
        || not rec.name_fits
        || (not (length m.name == 0) && not (beq_bytes m.name rec.name))
      then (w, bad_request)
      else put_in_epoch m rec walk not_after w epoch

  abbrev get_answer : Answer RefValue → RefReply
  get_answer (answered rv) = found_ref rv
  get_answer (failed_with e) = catalog_err e

  unfoldable pub handle_ref_get : RefMsg → Bool → N.World → N.World × RefReply
  unfolding ref_get catalog_err
  handle_ref_get m name_fits w =
      let got = ref_get C N m.name attempts w in
      if name_fits then (got.0, get_answer got.1) else (w, bad_request)

  abbrev delete_answer : Answer Ballot → RefReply
  delete_answer (answered b) = deleted
  delete_answer (failed_with e) = catalog_err e

  -- handleRefDelete; `now` is the clock. The purge that follows later is apart.
  unfoldable pub handle_ref_delete : RefMsg → Bool → ℕ → N.World → N.World × RefReply
  unfolding ref_delete cond_of catalog_err
  handle_ref_delete m name_fits now w =
      let done = ref_delete C key_of (cond_of m) now N m.name attempts w in
      if name_fits then (done.0, delete_answer done.1) else (w, bad_request)
