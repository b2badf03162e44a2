-- ===== src/View/Types.antt =====
-- view/view.go: the types of the cluster view. An id, which the wire carries as 32 bytes, is the number
-- that those bytes spell (Bytes.antt). Times are nanoseconds since the Unix epoch.
use dstore.Prelude.{ℕ, Bool, Option, List}
use dstore.Bytes.{Bytes}

pub record Voter : Type 0 where
  pub id : ℕ
  pub since : ℕ

pub record Former : Type 0 where
  pub id : ℕ
  pub until : ℕ

pub record DataEndpoint : Type 0 where
  pub id : ℕ
  pub addrs : List Bytes

pub record Node : Type 0 where
  pub id : ℕ
  pub weight : ℕ
  pub addrs : List Bytes
  pub endpoints : List DataEndpoint
  pub token : Bytes
  pub zone : Bytes
  pub incarnation : ℕ
  pub writable : Bool

pub record Ramp : Type 0 where
  pub node : ℕ
  pub target : ℕ
  pub step : ℕ

pub record Pending : Type 0 where
  pub nodes : List Node
  pub replicas : ℕ
  pub id : ℕ
  pub participants_ack : List ℕ
  pub participants : List ℕ
  pub frozen : Bool
  pub round : ℕ
  pub primary_done : List ℕ
  pub done : List ℕ
  pub frozen_at : ℕ
  pub reason : Bytes
  pub ramp : Option Ramp
  pub since : ℕ

-- VoterSyncDone and VoterSyncPending.
pub data VoterSync : Type 0 where
  sync_done sync_pending : VoterSync

pub record Acl : Type 0 where
  pub allowed : List ℕ
  pub admins : List ℕ

pub record View : Type 0 where
  pub cluster_id : Bytes
  pub incarnation : ℕ
  pub epoch : ℕ
  pub version : ℕ
  pub placement_epoch : ℕ
  pub replicas : ℕ
  pub min_replicas : ℕ
  pub voters : List Voter
  pub voter_sync : VoterSync
  pub voter_sync_cursor : Bytes
  pub nodes : List Node
  pub pending : Option Pending
  pub former : List Former
  pub fenced : List ℕ
  pub recovered_inc : ℕ
  pub recovered_epoch : ℕ
  pub rebalance_pause : Bool
  pub rate_cap : ℕ
  pub voter_sync_target : Bytes
  pub voter_sync_add : Bool
  pub deferred_voters : List ℕ
  pub acl : Option Acl
  pub ramps : List Ramp
  pub remove_voters : List ℕ
