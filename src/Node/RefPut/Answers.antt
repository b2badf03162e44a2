-- ===== src/Node/RefPut/Answers.antt =====
-- What the answers to a ref-put say of the tree and of the catalog.
use mathlib.Core.Path.{subst}
use dstore.Prelude.{
  ℕ, ◌≡◌, ◌≢◌, refl, sym, ◌∙◌, ap, Bool, true, false, ◌&&◌, ◌||◌, not, Option, some, List, [], ◌==◌,
  if◌then◌else◌, length, arith, length-nil,
}
use dstore.Bytes.{Bytes, beq_bytes}
use dstore.View.{View}
use dstore.Paxos.Proposer.Propose.{Network, Failure, in_round, in_change}
use dstore.Paxos.Proposer.{
  stale, conflict, unavailable, unknown_outcome, expired_error, other_error, no_view, deadline,
}
use dstore.Catalog.{
  Codec, CatalogError, cas_mismatch, unknown_ref, no_view_yet, view_exists, bad_value, already_done,
  write_lost, aborted,
}
use dstore.Catalog.Refs.{Answer, answered, failed_with, ref_put}
use dstore.Node.RefPut.{
  Fetched, found, is_complete, Walk, Walked, walked, failed, out_of_fuel, bad_object, unread_object,
  walk_complete,
}
use dstore.Node.RefPut.Checked.{Under}
use dstore.Node.RefPut.Enough.{HeldByEnough, walk_complete-HeldByEnough}
use dstore.Node.RefPut.Sample.{walk_complete-missing}
use dstore.Node.RefPut.Handler.{
  RefMsg, RefReply, put_ok, EpochCheck, fits, epoch_stale, other_epoch, Decoded, cond_of,
  put_walked, put_in_epoch, handle_ref_put, catalog_err,
}

-- No error of the catalog is answered as a success.
catalog_err_ok : (e : Failure CatalogError) (k : ℕ) (v : Bytes) → catalog_err e ≢ put_ok k v
unfolding catalog_err
catalog_err_ok (in_round (stale nv)) k v = λ h. cc
catalog_err_ok (in_round (conflict b)) k v = λ h. cc
catalog_err_ok (in_round unavailable) k v = λ h. cc
catalog_err_ok (in_round unknown_outcome) k v = λ h. cc
catalog_err_ok (in_round expired_error) k v = λ h. cc
catalog_err_ok (in_round other_error) k v = λ h. cc
catalog_err_ok (in_round no_view) k v = λ h. cc
catalog_err_ok (in_round deadline) k v = λ h. cc
catalog_err_ok (in_change (cas_mismatch cur)) k v = λ h. cc
catalog_err_ok (in_change unknown_ref) k v = λ h. cc
catalog_err_ok (in_change no_view_yet) k v = λ h. cc
catalog_err_ok (in_change view_exists) k v = λ h. cc
catalog_err_ok (in_change bad_value) k v = λ h. cc
catalog_err_ok (in_change already_done) k v = λ h. cc
catalog_err_ok (in_change write_lost) k v = λ h. cc
catalog_err_ok (in_change aborted) k v = λ h. cc

put_ok-same : (k k' : ℕ) (v v' : Bytes) → put_ok k v ≡ put_ok k' v' → (k ≡ k') × (v ≡ v')
put_ok-same k k' v v' e = (
  ap (λ r. elim r as (λ x. ℕ) [ put_ok a b ↦ a | _ ↦ k ]) e,
  ap (λ r. elim r as (λ x. Bytes) [ put_ok a b ↦ b | _ ↦ v ]) e,
)

put_answer_ok :
    (k : ℕ) (a : Answer Bytes) (key : ℕ) (version : Bytes)
    → elim a as (λ x. RefReply) [ answered v ↦ put_ok k v | failed_with e ↦ catalog_err e ]
      ≡ put_ok key version
    → (a ≡ answered version) × (key ≡ k)
put_answer_ok k (answered v) key version e =
    let (p, q) = put_ok-same k key v version e in (ap (λ x. answered x) q, sym p)
put_answer_ok k (failed_with x) key version e = absurd (catalog_err_ok x key version e)

pair_lem : {A B : Type 0} (p : A × B) {b : B} → p.1 ≡ b → p ≡ (p.0, b)
pair_lem p e = ap (λ x. (p.0, x)) e

module _ (C : Codec) (key_of : Bytes → Bytes) (N : Network) (attempts : ℕ) where
  module _ (m : RefMsg) (rec : Decoded) (not_after : ℕ) (w : N.World) where
    abbrev put : N.World × Answer Bytes
    put = ref_put C key_of m.content (cond_of m) N rec.name not_after attempts w

    -- The answer `put_ok` comes after a walk that misses nothing, and is RefPut's.
    abbrev Earned : (ℕ → Walked) → N.World × RefReply → Type 0
    Earned walk r =
        (key : ℕ) (version : Bytes)
        → r.1 ≡ put_ok key version
        → ((done : Walk) × ((walk rec.key ≡ walked done) × (done.missing ≡ [])))
          × ((put ≡ (r.0, answered version)) × (key ≡ rec.key))

    Earned-if :
        (walk : ℕ → Walked) (b : Bool) (x y : N.World × RefReply)
        → (b ≡ true → Earned walk x)
        → (b ≡ false → Earned walk y)
        → Earned walk (if b then x else y)
    Earned-if walk true x y f g = f refl
    Earned-if walk false x y f g = g refl

    put_walked-Earned :
        (walk : ℕ → Walked) (r : Walked)
        → walk rec.key ≡ r
        → Earned walk (put_walked C key_of N attempts m rec not_after r w)
    unfolding put_walked
    put_walked-Earned walk (failed bad_object) q = λ key version e. cc
    put_walked-Earned walk (failed unread_object) q = λ key version e. cc
    put_walked-Earned walk out_of_fuel q = λ key version e. cc
    put_walked-Earned walk (walked done) q =
        Earned-if walk (not (length done.missing == 0)) _ _ (λ _ key version e. cc)
          (λ n key version e.
            let (a, k) = put_answer_ok rec.key put.1 key version e in
            ((done, (q, length-nil done.missing (ground arith))), (pair_lem put a, k)))

    put_in_epoch-Earned :
        (walk : ℕ → Walked) (epoch : EpochCheck)
        → Earned walk (put_in_epoch C key_of N attempts m rec walk not_after w epoch)
    unfolding put_in_epoch
    put_in_epoch-Earned walk epoch_stale = λ key version e. cc
    put_in_epoch-Earned walk fits = put_walked-Earned walk (walk rec.key) refl
    put_in_epoch-Earned walk other_epoch = put_walked-Earned walk (walk rec.key) refl

    handle_ref_put-Earned :
        (epoch : EpochCheck) (walk : ℕ → Walked)
        → Earned walk (handle_ref_put C key_of N attempts m (some rec) epoch walk not_after w)
    unfolding handle_ref_put
    handle_ref_put-Earned epoch walk =
        Earned-if walk
          (not rec.key_fits
            || not rec.name_fits
            || (not (length m.name == 0) && not (beq_bytes m.name rec.name)))
          _ (put_in_epoch C key_of N attempts m rec walk not_after w epoch) (λ _ key version e. cc)
          (λ _. put_in_epoch-Earned walk epoch)

    -- A ref-put is answered with success only after RefPut has answered with the version, and after a walk
    -- that found every key of the record's tree, down to leaves and to keys cached as complete since the
    -- cutoff, at enough of its owners. The tree is that of the children the objects have; where one can be
    -- fetched, these are the ones read.
    pub handle_ref_put-HeldByEnough :
        (salt : ℕ → ℕ) (v : View) (ask : ℕ → ℕ → List ℕ → Option (List ℕ)) (is_leaf : ℕ → Bool)
        (fetch : ℕ → Fetched) (cutoff : ℕ) (cache : List (ℕ × ℕ)) (children : ℕ → List ℕ)
        → ((k : ℕ) (ks : List ℕ) → fetch k ≡ found ks → ks ≡ children k)
        → (fuel : ℕ) (epoch : EpochCheck) (w' : N.World) (key : ℕ) (version : Bytes)
        → handle_ref_put C key_of N attempts m
            (some rec)
            epoch
            (walk_complete salt v ask is_leaf fetch (is_complete cutoff cache) fuel)
            not_after
            w
          ≡ (w', put_ok key version)
        → (put ≡ (w', answered version))
          × ((key ≡ rec.key)
              × ((k : ℕ)
                  → Under is_leaf children (is_complete cutoff cache) key k
                  → HeldByEnough salt v ask k))
    handle_ref_put-HeldByEnough salt v ask is_leaf fetch cutoff cache children reads fuel epoch w'
          key version e =
        let is_cached = is_complete cutoff cache in
        let walk = walk_complete salt v ask is_leaf fetch is_cached fuel in
        let ((done, (q, n)), (p, k)) =
          handle_ref_put-Earned epoch walk key version (ap (λ x. x.1) e) in
        (
          p ∙ ap (λ x. (x.0, answered version)) e,
          (
            k,
            λ a u.
                (walk_complete-HeldByEnough salt v ask is_leaf fetch is_cached children reads fuel
                  rec.key done a q
                  (walk_complete-missing salt v ask is_leaf fetch is_cached fuel rec.key done q n)
                  (subst (λ x. Under is_leaf children is_cached x a) k u)).0,
          ),
        )
