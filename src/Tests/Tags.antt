-- ===== src/Tests/Tags.antt =====
-- Runs of TagFS with two files.
use box_kernel.Base.{
  ℕ, ◌≡◌, refl, true, false, ◌&&◌, some, List, [], ◌∷◌, ◌==◌, if◌then◌else◌, first_from-first,
  arith,
}
use box_kernel.Tagfs.{
  Tag, TagFs, tagfs_get_inode, tagfs_file_has_tag, lists, tagfs_add_tag, tagfs_tag_equal, has_tag,
  without_key,
}
use box_kernel.Klib.{strcmp}
use box_kernel.Tagfs.Query.{index_find, QueryOperator, tagfs_query, has_all, trash_tag}
use box_kernel.Tagfs.Query.And.{tagfs_query-and}
use box_kernel.Tagfs.Lookup.{tagfs_add_tag_lem}
use box_kernel.Tagfs.Trash.{tagfs_trash_file, tagfs_restore_file}
use box_kernel.Tagfs.Trash.Restore.{has_key, tagfs_restore_file-tagfs_trash_file}

-- a:b, a:c
abbrev first_tag : Tag
first_tag = record { key = 97 ∷ []; value = 98 ∷ [] }

abbrev second_tag : Tag
second_tag = record { key = 97 ∷ []; value = 99 ∷ [] }

abbrev files : TagFs
files = record {
  total_inodes = 4;
  inode_table = λ i. record {
    inode_id = if i == 0 then 2 else (if i == 1 then 3 else 0);
    size = 0;
    creation_time = 1;
    modification_time = 1;
    tags = first_tag ∷ [];
  };
  tag_index = record { tag = first_tag; capacity = 16; inode_ids = 2 ∷ 3 ∷ [] } ∷ [];
  user_context = record { tags = []; enabled = false };
  files_deleted = 0;
  queries_executed = 0;
  tags_added = 0;
  tags_removed = 0;
}

indexed_files : index_find files.tag_index first_tag ≡ some (2 ∷ 3 ∷ [])
unfolding index_find tagfs_tag_equal strcmp
indexed_files = refl

tagfs_query-and_example :
    (results : List ℕ) × ((tagfs_query files (first_tag ∷ second_tag ∷ []) QueryOperator.and 9).0
      ≡ some results)
    × ((id : ℕ) → lists results id ≡ (lists (2 ∷ 3 ∷ []) id && has_all files id (second_tag ∷ [])))
tagfs_query-and_example =
    tagfs_query-and files first_tag (second_tag ∷ []) 9 (2 ∷ 3 ∷ []) indexed_files (omega arith)
      (omega arith)

second_slot : tagfs_get_inode files 3 ≡ some 1
unfolding tagfs_get_inode
second_slot =
    first_from-first (λ i. (files.inode_table i).inode_id == 3) 0 4 1
      (record {
        passes = refl;
        from = omega arith;
        below = omega arith;
        before = λ j l h. ground (arith, h);
      })

second_tag_new : has_tag (first_tag ∷ []) second_tag ≡ false
unfolding tagfs_tag_equal strcmp
second_tag_new = refl

tagfs_add_tag_lem_example :
    let r = tagfs_add_tag files 3 second_tag 7 true in
    (r.0 ≡ true)
    × (tagfs_file_has_tag r.1 3 second_tag ≡ true)
    × ((ids : List ℕ) × (index_find r.1.tag_index second_tag ≡ some ids) × (lists ids 3 ≡ true))
tagfs_add_tag_lem_example =
    tagfs_add_tag_lem files 3 1 second_tag 7 second_slot (omega arith) second_tag_new (omega arith)

no_trash : has_key (first_tag ∷ []) trash_tag.key ≡ false
unfolding strcmp
no_trash = refl

tagfs_restore_file-tagfs_trash_file_example :
    let trashed = (tagfs_trash_file files 3 7 true).1 in
    let r = tagfs_restore_file trashed 3 8 in
    (tagfs_file_has_tag trashed 3 trash_tag ≡ true)
    × (r.0 ≡ some true)
    × ((r.1.inode_table 1).tags ≡ first_tag ∷ [])
tagfs_restore_file-tagfs_trash_file_example =
    tagfs_restore_file-tagfs_trash_file files 3 1 7 8 second_slot (omega arith) no_trash

-- A restored file that had the tag "trashed:false" before loses that one, and stays in the trash.
abbrev kept_tag : Tag
kept_tag = record {
  key = 116 ∷ 114 ∷ 97 ∷ 115 ∷ 104 ∷ 101 ∷ 100 ∷ 0 ∷ [];
  value = 102 ∷ 97 ∷ 108 ∷ 115 ∷ 101 ∷ 0 ∷ [];
}

restored_run : without_key (kept_tag ∷ trash_tag ∷ []) trash_tag.key ≡ some (trash_tag ∷ [])
unfolding without_key strcmp
restored_run = refl
