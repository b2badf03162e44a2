-- ===== src/Paxos/Disk.antt =====
-- What the acceptor uses of its Pebble database and of the CBOR codec, neither of which is in the
-- repository: both are a parameter, with the documented behaviour that the code relies on as laws. A
-- read answers what the last committed batch wrote, or fails; a batch is committed whole or not at all.
use dstore.Prelude.{
  ℕ, ◌≡◌, ◌⊎◌, Bool, true, false, Option, none, some, List, [], ◌∷◌, if◌then◌else◌,
}
use dstore.Bytes.{Bytes, beq_bytes}
use dstore.View.{View}

-- The persisted state of one register (`row` of acceptor.go).
pub record Row : Type 0 where
  pub promised : Bytes
  pub accepted : Bytes
  pub value : Bytes
  pub has_value : Bool

abbrev pub empty_row : Row
empty_row = record { promised = []; accepted = []; value = []; has_value = false }

-- The keys m/floor, m/marker, m/view and m/retired.
pub record Meta : Type 0 where
  pub floor : Option Bytes
  pub marker : Option ℕ
  pub view : Option Bytes
  pub retired : Bool

-- One write of a batch.
pub data Write : Type 0 where
  put_row : Bytes → Row → Write
  delete_row : Bytes → Write
  put_floor : Bytes → Write
  delete_floor : Write
  put_marker : ℕ → Write
  put_view : Bytes → Write
  put_retired : Write
  delete_retired : Write

pub data Read : Type 0 where
  fault : Read
  answer : Option Row → Read

-- What a batch makes of the row at a register.
unfoldable pub row_after : List Write → Bytes → Option Row → Option Row
row_after [] k o = o
row_after (put_row j r ∷ ws) k o = row_after ws k (if beq_bytes j k then some r else o)
row_after (delete_row j ∷ ws) k o = row_after ws k (if beq_bytes j k then none else o)
row_after (_ ∷ ws) k o = row_after ws k o

-- What a batch makes of the meta keys.
unfoldable pub meta_after : List Write → Meta → Meta
meta_after [] m = m
meta_after (put_floor b ∷ ws) m = meta_after ws (record m { floor = some b })
meta_after (delete_floor ∷ ws) m = meta_after ws (record m { floor = none })
meta_after (put_marker n ∷ ws) m = meta_after ws (record m { marker = some n })
meta_after (put_view v ∷ ws) m = meta_after ws (record m { view = some v })
meta_after (put_retired ∷ ws) m = meta_after ws (record m { retired = true })
meta_after (delete_retired ∷ ws) m = meta_after ws (record m { retired = false })
meta_after (put_row j r ∷ ws) m = meta_after ws m
meta_after (delete_row j ∷ ws) m = meta_after ws m

pub record Disk : Type 1 where
  pub Db : Type 0
  -- What is committed: not seen by the code, only by the laws.
  pub row_at : Db → Bytes → Option Row
  pub meta_at : Db → Meta
  -- db.Get of a row and its decoding; db.Get of the meta keys; a synced batch, `none` on an error.
  pub read : Db → Bytes → Read
  pub commit : Db → List Write → Option Db
  -- The rows with lower ≤ register < upper in the iterator's order; a row that does not decode is `none`.
  pub iterate : Db → Bytes → Bytes → Option (List (Bytes × Option Row))
  -- view.Encode and view.Decode
  pub encode : View → Option Bytes
  pub decode : Bytes → Option View
  pub read_law : (d : Db) (k : Bytes) → (read d k ≡ fault) ⊎ (read d k ≡ answer (row_at d k))
  pub commit_rows :
      (d d' : Db) (ws : List Write) (k : Bytes)
      → commit d ws ≡ some d'
      → row_at d' k ≡ row_after ws k (row_at d k)
  pub commit_meta :
      (d d' : Db) (ws : List Write) → commit d ws ≡ some d' → meta_at d' ≡ meta_after ws (meta_at d)
