-- ===== src/Worktree/Compare.antt =====
-- Compare against what it distinguishes.
use dstore.Prelude.{◌≡◌, refl, inl, inr, Bool, true, false, Option, none, some, ◌==◌, Bool-cases}
use dstore.Worktree.{
  Entry, Kind, meta_changed, file_type, permissions, same_content, same_meta, equivalent, compare,
}

-- The kinds of difference that leave type, content and permissions alone.
abbrev pub is_minor : Option Kind → Bool
is_minor none = true
is_minor (some meta_changed) = true
is_minor _ = false

-- Two entries are equivalent exactly when Compare finds them identical or different in metadata only.
pub equivalent-compare : (a b : Entry) → equivalent a b ≡ is_minor (compare a b)
unfolding equivalent compare
equivalent-compare a b = elim (Bool-cases (file_type a == file_type b)) [
  | inr f ↦ rw f refl
  | inl t ↦ rw t (elim (Bool-cases (same_content a b)) [
    | inr f ↦ rw f refl
    | inl c ↦ rw c (elim (Bool-cases (permissions a == permissions b)) [
      | inr f ↦ rw f refl
      | inl p ↦ rw p (elim (Bool-cases (same_meta a b)) [ inr f ↦ rw f refl | inl m ↦ rw m refl ])
    ])
  ])
]
