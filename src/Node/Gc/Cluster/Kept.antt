-- ===== src/Node/Gc/Cluster/Kept.antt =====
-- A sweep keeps what the references reach.
use mathlib.Core.Path.{subst}
use mathlib.Core.Option.{some-injective}
use dstore.Prelude.{
  ℕ, ◌≡◌, refl, sym, ◌∙◌, ap, Bool, true, false, ◌||◌, Option, none, some, List, [], ==_iff,
  if◌then◌else◌, elem, length, All, ◌+◌, ◌<◌, ◌^◌,
}
use dstore.View.{View, contains}
use dstore.View.Tables.{write_set, in_write_set, in_write_set-write_set}
use dstore.Node.Gc.Sweep.{pack_of, SweepInput, Local, live, live_in}
use dstore.Node.Gc.Mark.{MarkState, has_pack}
use dstore.Node.Gc.Input.{
  HeaderCodec, header_of, persist_mark, Segment, from_mark, old_index, sweep_input_for, from_disk,
}
use dstore.Node.Gc.Input.File.{IsKey, loaded, load_mark-persist_mark}
use dstore.Bytes.{Bytes}
use dstore.Node.Gc.Cluster.State.{Cluster, ClusterRun, Quiet, Reached}
use dstore.Node.Gc.Cluster.Complete.{ClusterRun-Marks, ClusterRun-marked}

module _ (n : Local) (si : SweepInput) (cur : View) (k : ℕ) where
  live-if :
      (a b c d : Bool)
      → b ≡ true
      → c ≡ true
      → (if a then true else if b then c || si.overflow else d) ≡ true
  live-if true b c d e f = refl
  live-if false b c d e f = rw (e, f) refl

  module _ (w : in_write_set n.salt si.placement k n.self ≡ true) where
    kept_by :
        (o : Option ℕ)
        → (has_pack o ≡ true → elem k si.marked ≡ true)
        → elim o as (λ x. Bool) [ none ↦ true | some pack ↦ live_in n si cur k pack ] ≡ true
    unfolding live_in
    kept_by none m = refl
    kept_by (some pack) m = live-if _ _ _ _ w (m refl)

    live-marked :
        n.is_corrupt k ≡ false
        → (has_pack (pack_of k si.eligible) ≡ true → elem k si.marked ≡ true)
        → live n si cur k ≡ true
    unfolding live
    live-marked c m = rw c (kept_by (pack_of k si.eligible) m)

module _ (n : Local) (is_leaf : ℕ → Bool) (kids : ℕ → List ℕ) (placement : View)
    (acked : List ℕ) where
  module _ (c : Cluster) (k : ℕ) (run : ClusterRun n.salt is_leaf kids placement acked c)
      (quiet : Quiet n.salt is_leaf kids c) (reached : Reached n.salt is_leaf kids c.roots k)
      (owner : elem n.self (write_set n.salt placement k) ≡ true)
      (took_part : contains acked n.self ≡ true) (fine : n.is_corrupt k ≡ false) where
    abbrev own_mark : MarkState
    own_mark = (c.part n.self).mark

    in_write_set-own : in_write_set n.salt own_mark.placement k n.self ≡ true
    in_write_set-own =
        let m = ClusterRun-Marks n.salt is_leaf kids placement acked run in
        ap (λ v. in_write_set n.salt v k n.self) (m.placement_is n.self)
        ∙ in_write_set-write_set n.salt placement k n.self
        ∙ owner

    is_marked : has_pack (pack_of k own_mark.eligible) ≡ true → elem k own_mark.marked ≡ true
    is_marked =
        ClusterRun-marked n.salt is_leaf kids placement acked c k n.self run quiet reached owner
          took_part

    -- Once the mark of an epoch is complete, the sweep of a node that took part keeps every object under a
    -- root that the node owns and that is not corrupt: with the mark in memory, whatever the node's files,
    -- view, pins and packs are by then.
    pub ClusterRun-live :
        (history : ℕ → Option ℕ) (C : HeaderCodec) (segs : List Segment) (file : Option Bytes)
        (cur : View) (si : SweepInput)
        → sweep_input_for history C own_mark.epoch segs file (some own_mark) ≡ some si
        → live n si cur k ≡ true
    unfolding sweep_input_for from_mark
    ClusterRun-live history C segs file cur si e =
        let same : some (from_mark history own_mark) ≡ some si =
          sym (
            ap (λ b. if b then some (from_mark history own_mark) else from_disk history C segs file)
              ((==_iff own_mark.epoch own_mark.epoch).1 refl))
          ∙ e in
        subst (λ x. live n x cur k ≡ true) (some-injective _ _ same)
          (live-marked n (from_mark history own_mark) cur k in_write_set-own fine is_marked)

    -- The same holds after a restart, with the mark read back from the bytes of its file and the index built
    -- anew, where the header decodes to what was encoded, and no key of an old pack is new to the node: the
    -- mark has it among the sweepable records.
    pub ClusterRun-load_mark :
        (history : ℕ → Option ℕ) (C : HeaderCodec) (segs : List Segment) (cur : View)
        (si : SweepInput)
        → C.decode (C.encode (header_of own_mark)) ≡ some (header_of own_mark)
        → length (C.encode (header_of own_mark)) + 4 < 2 ^ 32
        → All IsKey own_mark.marked
        → sweep_input_for history C own_mark.epoch segs (some (persist_mark C own_mark)) none
          ≡ some si
        → (has_pack (pack_of k (old_index own_mark.elig_below segs [])) ≡ true
            → has_pack (pack_of k own_mark.eligible) ≡ true)
        → live n si cur k ≡ true
    unfolding sweep_input_for from_disk
    ClusterRun-load_mark history C segs cur si law small keys e old =
        let same : some (loaded history C segs own_mark) ≡ some si =
          sym (load_mark-persist_mark history C segs own_mark law small keys) ∙ e in
        subst (λ x. live n x cur k ≡ true) (some-injective _ _ same)
          (live-marked n (loaded history C segs own_mark) cur k in_write_set-own fine
            (λ h. is_marked (old h)))
