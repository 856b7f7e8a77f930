-- ===== src/Tagfs/Trash.antt =====
-- The trash of TagFS: storage/tagfs.c, `tagfs_delete_file`, `tagfs_trash_file`,
-- `tagfs_restore_file` and `tagfs_find_not_trashed`. The booleans are the return codes 1 and 0;
-- where the file is not found, `tagfs_trash_file` and `tagfs_restore_file` return -1, which is
-- `none`.
pub mod Restore
use box_kernel.Base.{
  ℕ, zero, suc, ◌+◌, ◌%◌, ◌^◌, Bool, true, false, not, ◌&&◌, Option, none, some, List, [], ◌∷◌,
  ◌==◌, if◌then◌else◌,
}
use box_kernel.Tagfs.{
  FileInode, TagFs, safe_max, tagfs_get_inode, tagfs_file_has_tag, tagfs_add_tag, tagfs_remove_tag,
}
use box_kernel.Tagfs.Query.{trash_tag}

unfoldable pub tagfs_delete_file : TagFs → ℕ → ℕ → Bool → Bool × TagFs
tagfs_delete_file fs inode_id now granted = elim (tagfs_get_inode fs inode_id) [
  | none ↦ (false, fs)
  | some i ↦
      let (ok, fs') = tagfs_add_tag fs inode_id trash_tag now granted in
      if ok
      then (true, record fs' { files_deleted = (fs'.files_deleted + 1) % 2 ^ 64 })
      else (false, fs')
]

unfoldable pub tagfs_trash_file : TagFs → ℕ → ℕ → Bool → Option Bool × TagFs
tagfs_trash_file fs inode_id now granted = elim (tagfs_get_inode fs inode_id) [
  | none ↦ (none, fs)
  | some i ↦ let (ok, fs') = tagfs_add_tag fs inode_id trash_tag now granted in (some ok, fs')
]

unfoldable pub tagfs_restore_file : TagFs → ℕ → ℕ → Option Bool × TagFs
tagfs_restore_file fs inode_id now = elim (tagfs_get_inode fs inode_id) [
  | none ↦ (none, fs)
  | some i ↦ let (ok, fs') = tagfs_remove_tag fs inode_id trash_tag.key now in (some ok, fs')
]

-- the loop over the `n` slots from `i` on, with room for `room` more
unfoldable pub list_not_trashed : TagFs → ℕ → ℕ → ℕ → List ℕ
list_not_trashed fs i zero room = []
list_not_trashed fs i (suc n) zero = []
list_not_trashed fs i (suc n) (suc room) =
    let id = (fs.inode_table i).inode_id in
    elim (not (id == 0) && not (tagfs_file_has_tag fs id trash_tag)) [
      | true ↦ id ∷ list_not_trashed fs (i + 1) n room
      | false ↦ list_not_trashed fs (i + 1) n (suc room)
    ]

unfoldable pub tagfs_find_not_trashed : TagFs → ℕ → List ℕ
tagfs_find_not_trashed fs max_results = list_not_trashed fs 0 (safe_max fs) max_results
