-- ===== src/Wire.antt =====
-- wire/wire.go: the frame types, error codes and message fields of the catalog (the cluster ALPN's
-- paxos part). A field that a message does not carry has Go's zero value. Error texts are left out.
use dstore.Prelude.{ℕ, Bool, false, List, []}
use dstore.Bytes.{Bytes}

-- The frame types of the catalog.
pub data FrameType : Type 0 where
  t_prepare t_accept t_read t_scan t_install t_purge t_marker t_seed : FrameType
  t_promise t_conflict t_accepted t_read_reply t_scan_reply t_installed : FrameType
  t_ok t_err t_none : FrameType

-- The error codes of the catalog.
pub data Code : Type 0 where
  stale_view bad_request internal need_view expired amnesiac retired no_code : Code

pub record ScanRow : Type 0 where
  pub reg : Bytes
  pub promised : Bytes
  pub accepted : Bytes
  pub value : Bytes
  pub has_value : Bool

pub record Msg : Type 0 where
  pub type : FrameType
  pub cluster_id : Bytes
  pub incarnation : ℕ
  pub epoch : ℕ
  pub code : Code
  pub view : Bytes
  pub prefix : Bytes
  pub after : Bytes
  pub limit : ℕ
  pub next : Bytes
  pub reg : Bytes
  pub ballot : Bytes
  pub value : Bytes
  pub has_value : Bool
  pub accepted : Bytes
  pub promised : Bytes
  pub not_after : ℕ
  pub rows : List ScanRow
  pub more : Bool
  pub since : ℕ

abbrev pub empty_msg : Msg
empty_msg = record {
  type = t_none;
  cluster_id = [];
  incarnation = 0;
  epoch = 0;
  code = no_code;
  view = [];
  prefix = [];
  after = [];
  limit = 0;
  next = [];
  reg = [];
  ballot = [];
  value = [];
  has_value = false;
  accepted = [];
  promised = [];
  not_after = 0;
  rows = [];
  more = false;
  since = 0;
}

-- &Msg{Type: t}
abbrev pub msg_of : FrameType → Msg
msg_of t = record empty_msg { type = t }

-- ErrMsg
abbrev pub err_msg : Code → Msg
err_msg c = record empty_msg { type = t_err; code = c }
