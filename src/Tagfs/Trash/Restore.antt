-- ===== src/Tagfs/Trash/Restore.antt =====
-- A file goes to the trash and back: storage/tagfs.c, `tagfs_trash_file` and `tagfs_restore_file`.
use box_kernel.Base.{
  ℕ, ◌+◌, ◌%◌, ◌^◌, ◌<◌, ◌≡◌, refl, ◌∙◌, ap, Bool, true, false, ◌||◌, Option, none, some, List, [],
  ◌∷◌, ◌++◌, length, update_self, arith,
}
use box_kernel.Tagfs.{
  same_text, Tag, FileInode, TagFs, max_tags_per_file, tagfs_tag_equal, tagfs_get_inode,
  tagfs_file_has_tag, has_tag, tagfs_add_tag, tagfs_remove_tag, without_key, retag,
}
use box_kernel.Tagfs.Lookup.{
  same_text_self, tagged, tagged-tags, tagfs_get_inode-tagged, tagfs_add_tag-tagged,
  tagfs_file_has_tag-tagged,
}
use box_kernel.Tagfs.Query.{trash_tag}
use box_kernel.Tagfs.Trash.{tagfs_trash_file, tagfs_restore_file}

abbrev pub has_key : List Tag → List ℕ → Bool
has_key [] key = false
has_key (t ∷ ts) key = same_text t.key key || has_key ts key

has_tag-has_key : (ts : List Tag) (tag : Tag) → has_key ts tag.key ≡ false → has_tag ts tag ≡ false
unfolding tagfs_tag_equal
has_tag-has_key [] tag none_has = refl
has_tag-has_key (t ∷ ts) tag none_has =
    let off : same_text t.key tag.key ≡ false = ground (arith, none_has) in
    rw off (has_tag-has_key ts tag (ground (arith, none_has)))

without_key-snoc :
    (ts : List Tag) (tag : Tag)
    → has_key ts tag.key ≡ false
    → without_key (ts ++ tag ∷ []) tag.key ≡ some ts
unfolding without_key
without_key-snoc [] tag none_has = rw (same_text_self tag.key) refl
without_key-snoc (t ∷ ts) tag none_has =
    let off : same_text t.key tag.key ≡ false = ground (arith, none_has) in
    rw off (
      ap (λ (o : Option (List Tag)). elim o [ none ↦ none | some ts' ↦ some (t ∷ ts') ])
        (without_key-snoc ts tag (ground (arith, none_has))))

tagfs_remove_tag-some :
    (fs : TagFs) (id i : ℕ) (key : List ℕ) (now : ℕ) (ts : List Tag)
    → tagfs_get_inode fs id ≡ some i
    → without_key (fs.inode_table i).tags key ≡ some ts
    → tagfs_remove_tag fs id key now
      ≡ (true, record (retag fs i ts now) { tags_removed = (fs.tags_removed + 1) % 2 ^ 64 })
unfolding tagfs_remove_tag
tagfs_remove_tag-some fs id i key now ts at_slot removed =
    ap
      (λ (o : Option ℕ). elim o [
        | none ↦ (false, fs)
        | some i ↦ elim (without_key (fs.inode_table i).tags key) [
          | none ↦ (false, fs)
          | some tags ↦
              (true, record (retag fs i tags now) { tags_removed = (fs.tags_removed + 1) % 2 ^ 64 })
        ]
      ])
      at_slot
    ∙ ap
        (λ (o : Option (List Tag)). elim o [
          | none ↦ (false, fs)
          | some tags ↦
              (true, record (retag fs i tags now) { tags_removed = (fs.tags_removed + 1) % 2 ^ 64 })
        ])
        removed

tagfs_trash_file-some :
    (fs : TagFs) (id i : ℕ) (now : ℕ)
    → tagfs_get_inode fs id ≡ some i
    → (tagfs_trash_file fs id now true).1 ≡ (tagfs_add_tag fs id trash_tag now true).1
unfolding tagfs_trash_file
tagfs_trash_file-some fs id i now at_slot =
    let r = tagfs_add_tag fs id trash_tag now true in
    ap
      (λ (o : Option ℕ).
        (elim o as (λ _. Option Bool × TagFs) [ none ↦ (none, fs) | some i ↦ (some r.0, r.1) ]).1)
      at_slot

tagfs_restore_file-some :
    (fs : TagFs) (id i : ℕ) (now : ℕ)
    → tagfs_get_inode fs id ≡ some i
    → let r = tagfs_remove_tag fs id trash_tag.key now in
      tagfs_restore_file fs id now ≡ (some r.0, r.1)
unfolding tagfs_restore_file
tagfs_restore_file-some fs id i now at_slot =
    let r = tagfs_remove_tag fs id trash_tag.key now in
    ap
      (λ (o : Option ℕ). elim o as (λ _. Option Bool × TagFs) [
        | none ↦ (none, fs)
        | some i ↦ (some r.0, r.1)
      ])
      at_slot

-- A file with fewer than 32 tags, none of them with the key "trashed", goes to the trash and is
-- restored: both find it, and it has the tags that it had before.
pub tagfs_restore_file-tagfs_trash_file :
    (fs : TagFs) (id i now later : ℕ)
    → tagfs_get_inode fs id ≡ some i
    → length (fs.inode_table i).tags < max_tags_per_file
    → has_key (fs.inode_table i).tags trash_tag.key ≡ false
    → let trashed = (tagfs_trash_file fs id now true).1 in
      let r = tagfs_restore_file trashed id later in
      (tagfs_file_has_tag trashed id trash_tag ≡ true)
      × (r.0 ≡ some true)
      × ((r.1.inode_table i).tags ≡ (fs.inode_table i).tags)
tagfs_restore_file-tagfs_trash_file fs id i now later at_slot few none_has =
    let ts = (fs.inode_table i).tags in
    let fs' = tagged fs id trash_tag now i in
    let trash : (tagfs_trash_file fs id now true).1 ≡ fs' =
      tagfs_trash_file-some fs id i now at_slot
      ∙ ap (λ (r : Bool × TagFs). r.1)
          (tagfs_add_tag-tagged fs id i trash_tag now at_slot few
            (has_tag-has_key ts trash_tag none_has)) in
    let at_slot' : tagfs_get_inode fs' id ≡ some i =
      tagfs_get_inode-tagged fs id trash_tag now i id ∙ at_slot in
    let own = tagged-tags fs id trash_tag now i in
    let removed =
      tagfs_remove_tag-some fs' id i trash_tag.key later ts at_slot'
        (ap (λ ts. without_key ts trash_tag.key) own ∙ without_key-snoc ts trash_tag none_has) in
    let restored =
      tagfs_restore_file-some fs' id i later at_slot'
      ∙ ap (λ (r : Bool × TagFs). (some r.0, r.1)) removed in
    let kept =
      update_self fs'.inode_table i
        (record (fs'.inode_table i) { tags = ts; modification_time = later }) in
    rw trash (
      tagfs_file_has_tag-tagged fs id i trash_tag now at_slot,
      ap (λ (r : Option Bool × TagFs). r.0) restored,
      ap (λ (r : Option Bool × TagFs). (r.1.inode_table i).tags) restored
          ∙ ap (λ (f : FileInode). f.tags) kept,
    )
