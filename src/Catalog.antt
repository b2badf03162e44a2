-- ===== src/Catalog.antt =====
-- catalog/catalog.go: the typed layer over the registers. Values are CBOR: the codec is the interface
-- `Codec`. A nil []byte of a condition is `none`.
pub mod Refs
pub mod Leases
pub mod Views
pub mod GcState
use dstore.Prelude.{
  ℕ, ◌≡◌, Bool, true, false, ◌&&◌, ◌||◌, not, Option, none, some, [], ◌==◌, if◌then◌else◌, length,
}
use dstore.Bytes.{Bytes, beq_bytes}
use dstore.View.{View}

pub record RefValue : Type 0 where
  pub content : Bytes
  pub deleted_at : ℕ
  pub version : Bytes

-- RefValue{}
abbrev pub no_ref : RefValue
no_ref = record { content = []; deleted_at = 0; version = [] }

-- IsTombstone
unfoldable pub is_tombstone : RefValue → Bool
is_tombstone r = length r.content == 0

pub record Lease : Type 0 where
  pub holder : Bytes
  pub expires : ℕ

-- Lease{}
abbrev pub no_lease : Lease
no_lease = record { holder = []; expires = 0 }

-- The codec package, with what the catalog relies on: what it has marshalled, it can unmarshal.
pub record Codec : Type 0 where
  pub encode_ref : RefValue → Bytes
  pub decode_ref : Bytes → Option RefValue
  pub encode_lease : Lease → Bytes
  pub decode_lease : Bytes → Option Lease
  pub encode_view : View → Option Bytes
  pub decode_view : Bytes → Option View
  pub ref_law : (r : RefValue) → decode_ref (encode_ref r) ≡ some r
  pub lease_law : (l : Lease) → decode_lease (encode_lease l) ≡ some l

-- The errors of the catalog: a CASMismatch holds the current value.
pub data CatalogError : Type 0 where
  cas_mismatch : Option RefValue → CatalogError
  unknown_ref no_view_yet view_exists bad_value already_done write_lost aborted : CatalogError

pub record Cond : Type 0 where
  pub expected_version : Option Bytes
  pub versioned : Bool
  pub expected_old : Option Bytes
  pub keyed : Bool
  pub force : Bool

abbrev pub mismatch : RefValue → Bool → Option CatalogError
mismatch cur present = some (cas_mismatch (if present then some cur else none))

-- A case of `check`: what is expected, against what is there.
abbrev pub check_expected : Option Bytes → Bytes → RefValue → Bool → Option CatalogError
check_expected none found cur present = if present then mismatch cur present else none
check_expected (some wanted) found cur present =
    if not present || not (beq_bytes wanted found) then mismatch cur present else none

-- check: `none` is the nil error.
unfoldable pub check : Cond → RefValue → Bool → Bytes → Option CatalogError
check cond cur present cur_key =
    if cond.force
    then none
    else if cond.versioned
    then check_expected cond.expected_version cur.version cur present
    else if cond.keyed
    then check_expected cond.expected_old cur_key cur present
    else none
