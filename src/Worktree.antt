-- ===== src/Worktree.antt =====
-- worktree/change.go: the entries of a tree as the comparison reads them, and the changes between two trees.
pub mod Merge
pub mod Compare
use dstore.Prelude.{
  ℕ, ◌/◌, ◌%◌, Bool, true, false, ◌&&◌, ◌||◌, not, Option, none, some, List, [], ◌∷◌, ◌++◌, ◌==◌,
  if◌then◌else◌, length,
}
use dstore.Bytes.{Bytes, beq_bytes}

pub data Kind : Type 0 where
  added deleted modified type_changed mode_changed meta_changed : Kind

-- The fields of fstree.Entry that Compare reads.
pub record Entry : Type 0 where
  pub mode : ℕ
  pub content_key : Bytes
  pub link_target : Bytes
  pub rdev : List ℕ
  pub uid : ℕ
  pub gid : ℕ
  pub mtime : ℕ
  pub xattrs_in : Bytes
  pub xattrs_key : Bytes

pub record Change : Type 0 where
  pub path : Bytes
  pub kind : Kind
  pub old : Option Entry
  pub new : Option Entry

-- Mode & S_IFMT, over 2 ^ 12; and Mode & 0o7777.
unfoldable pub file_type : Entry → ℕ
file_type e = e.mode / 4096 % 16

unfoldable pub permissions : Entry → ℕ
permissions e = e.mode % 4096

unfoldable pub is_dir : Option Entry → Bool
unfolding file_type
is_dir none = false
is_dir (some e) = file_type e == 4

-- SameContent: S_IFREG is 8, S_IFLNK 10, S_IFCHR 2 and S_IFBLK 6.
unfoldable pub same_content : Entry → Entry → Bool
unfolding file_type
same_content a b =
    if file_type a == 8
    then beq_bytes a.content_key b.content_key
    else if file_type a == 10
    then beq_bytes a.link_target b.link_target
    else if file_type a == 2 || file_type a == 6
    then beq_bytes a.rdev b.rdev
    else true

unfoldable pub equivalent : Entry → Entry → Bool
unfolding file_type permissions same_content
equivalent a b = file_type a == file_type b && same_content a b && permissions a == permissions b

unfoldable pub same_meta : Entry → Entry → Bool
same_meta a b =
    a.uid == b.uid
    && a.gid == b.gid
    && a.mtime == b.mtime
    && beq_bytes a.xattrs_in b.xattrs_in
    && beq_bytes a.xattrs_key b.xattrs_key

-- Compare: none where the entries are identical.
unfoldable pub compare : Entry → Entry → Option Kind
unfolding file_type same_content permissions same_meta
compare old new =
    if not (file_type old == file_type new)
    then some type_changed
    else if not (same_content old new)
    then some modified
    else if not (permissions old == permissions new)
    then some mode_changed
    else if not (same_meta old new)
    then some meta_changed
    else none

unfoldable pub join_path : Bytes → Bytes → Bytes
join_path prefix name = if length prefix == 0 then name else prefix ++ 47 ∷ name
