-- ===== src/Node/Gc/Input.antt =====
-- node/gc.go: what a sweep works from (sweepInputFor): the mark in memory, or the one on disk with the
-- store's index (persistMark, loadMark). The codec of the file's header, the segments of the store and the
-- counters' history are arguments; `marked`, a Go map, is a list in some order.
pub mod File
use dstore.Prelude.{
  ℕ, zero, suc, ◌+◌, ◌-◌, ◌%◌, ◌^◌, ◌||◌, false, Option, none, some, List, [], ◌∷◌, ◌++◌, ltb, leb,
  ◌==◌, if◌then◌else◌, length, take, drop,
}
use dstore.Bytes.{Bytes, be_bytes, be_value}
use dstore.View.{View}
use dstore.Node.Gc.Sweep.{SweepInput}
use dstore.Node.Gc.Mark.{MarkState}

-- The header of the file of a mark.
pub record MarkHeader : Type 0 where
  pub epoch : ℕ
  pub count : ℕ
  pub elig_below : ℕ
  pub placement : View

abbrev pub header_of : MarkState → MarkHeader
header_of ms = record {
  epoch = ms.epoch;
  count = ms.count;
  elig_below = ms.elig_below;
  placement = ms.placement;
}

-- The codec package on headers, with the view inside; `decode` is none where either does not decode.
pub record HeaderCodec : Type 0 where
  pub encode : MarkHeader → Bytes
  pub decode : Bytes → Option MarkHeader

-- The keys that follow the header.
unfoldable pub key_bytes : List ℕ → Bytes
key_bytes [] = []
key_bytes (k ∷ ks) = be_bytes 32 k ++ key_bytes ks

-- The file that persistMark writes.
unfoldable pub persist_mark : HeaderCodec → MarkState → Bytes
unfolding key_bytes
persist_mark C ms =
    let header = C.encode (header_of ms) in
    be_bytes 4 (length header) ++ (header ++ key_bytes ms.marked)

-- A pack of the store, with the keys of its index.
pub record Segment : Type 0 where
  pub id : ℕ
  pub keys : List ℕ

unfoldable pub index_keys : ℕ → List ℕ → List (ℕ × ℕ) → List (ℕ × ℕ)
index_keys id [] index = index
index_keys id (k ∷ ks) index = index_keys id ks ((k, id) ∷ index)

unfoldable pub old_index : ℕ → List Segment → List (ℕ × ℕ) → List (ℕ × ℕ)
unfolding index_keys
old_index below [] index = index
old_index below (s ∷ ss) index =
    old_index below ss (if leb below s.id then index else index_keys s.id s.keys index)

-- EligibleBelow of the counter before, 0 where the history has none.
unfoldable pub elig_of : Option ℕ → ℕ
elig_of none = 0
elig_of (some b) = b

-- The loop over the keys; what is left at the end is too short for one.
unfoldable pub read_keys : (fuel : ℕ) → Bytes → List ℕ
read_keys zero b = []
read_keys (suc n) b =
    let more = read_keys n (drop 32 b) in
    if ltb (length b) 32 then [] else be_value 0 (take 32 b) ∷ more

-- 4+hl, a uint32.
unfoldable pub header_end : Bytes → ℕ
header_end b = (4 + be_value 0 (take 4 b)) % 2 ^ 32

module _ (history : ℕ → Option ℕ) where
  unfoldable pub load_header : List Segment → Bytes → Option MarkHeader → Option SweepInput
  unfolding old_index elig_of read_keys
  load_header segs b none = none
  load_header segs b (some h) = some (record {
    epoch = h.epoch;
    count = h.count;
    elig_below = elig_of (history ((h.count + (2 ^ 64 - 1)) % 2 ^ 64));
    placement = h.placement;
    eligible = old_index h.elig_below segs [];
    marked = read_keys (length b) b;
    overflow = false;
  })

  -- The slices of the file; where they are out of range Go panics, or fails on the header first.
  unfoldable pub load_at : HeaderCodec → List Segment → Bytes → (end : ℕ) → Option SweepInput
  unfolding load_header
  load_at C segs b end =
      if ltb end 4 || ltb (length b) end
      then none
      else load_header segs (drop end b) (C.decode (take (end - 4) (drop 4 b)))

  -- loadMark, of the bytes of the file.
  unfoldable pub load_mark : HeaderCodec → List Segment → Bytes → Option SweepInput
  unfolding load_at header_end
  load_mark C segs b = if ltb (length b) 4 then none else load_at C segs b (header_end b)

  unfoldable pub from_mark : MarkState → SweepInput
  unfolding elig_of
  from_mark ms = record {
    epoch = ms.epoch;
    count = ms.count;
    elig_below = elig_of (history ((ms.count + (2 ^ 64 - 1)) % 2 ^ 64));
    placement = ms.placement;
    eligible = ms.eligible;
    marked = ms.marked;
    overflow = false;
  }

  unfoldable pub from_disk : HeaderCodec → List Segment → Option Bytes → Option SweepInput
  unfolding load_mark
  from_disk C segs none = none
  from_disk C segs (some b) = load_mark C segs b

  -- `file` is the mark of the epoch on disk.
  unfoldable pub sweep_input_for :
      HeaderCodec → ℕ → List Segment → Option Bytes → Option MarkState → Option SweepInput
  unfolding from_disk from_mark
  sweep_input_for C epoch segs file none = from_disk C segs file
  sweep_input_for C epoch segs file (some ms) =
      if ms.epoch == epoch then some (from_mark ms) else from_disk C segs file
