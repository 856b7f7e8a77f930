-- ===== src/Tagfs.antt =====
-- The tags of TagFS: storage/tagfs.h and storage/tagfs.c, the tags of a file, the index and the
-- queries. The array of a file's tags is the list of its first `tag_count`, an index entry's array
-- of ids the list of its first `file_count`, and the index the list of its first `entry_count`
-- entries. `granted` says whether `kmalloc` returns memory, and `now` is what `rdtsc` reads. The
-- blocks of a file's data and the lock are left out.
pub mod Lookup
pub mod Query
pub mod Trash
use box_kernel.Base.{
  ℕ, zero, suc, ◌+◌, ◌*◌, ◌%◌, ◌^◌, min, Bool, true, false, not, ◌&&◌, ◌||◌, Option, none, some,
  List, [], ◌∷◌, ◌++◌, length, take, ltb, leb, ◌==◌, if◌then◌else◌, update, first_from,
}
use box_kernel.Klib.{ℤ, pos, negsuc, strcmp}

-- `strcmp(a, b) == 0`
abbrev pub same_text : List ℕ → List ℕ → Bool
same_text a b = elim (strcmp a b) [ pos n ↦ n == 0 | negsuc n ↦ false ]

pub record Tag : Type 0 where
  pub key : List ℕ
  pub value : List ℕ

-- TAGFS_MAX_TAGS_PER_FILE, TAGFS_MAX_TAG_INDEX, TAGFS_MAX_FILES, TAGFS_MAX_CONTEXT_TAGS
abbrev pub max_tags_per_file : ℕ
max_tags_per_file = 32

abbrev pub max_tag_index : ℕ
max_tag_index = 1024

abbrev pub max_files : ℕ
max_files = 65536

abbrev pub max_context_tags : ℕ
max_context_tags = 16

-- without the pointers to blocks
pub record FileInode : Type 0 where
  pub inode_id : ℕ
  pub size : ℕ
  pub creation_time : ℕ
  pub modification_time : ℕ
  pub tags : List Tag

pub record TagIndexEntry : Type 0 where
  pub tag : Tag
  pub capacity : ℕ
  pub inode_ids : List ℕ

pub record TagFsUserContext : Type 0 where
  pub tags : List Tag
  pub enabled : Bool

pub record TagFs : Type 0 where
  pub total_inodes : ℕ
  pub inode_table : ℕ → FileInode
  pub tag_index : List TagIndexEntry
  pub user_context : TagFsUserContext
  pub files_deleted : ℕ
  pub queries_executed : ℕ
  pub tags_added : ℕ
  pub tags_removed : ℕ

unfoldable pub tagfs_tag_equal : Tag → Tag → Bool
tagfs_tag_equal a b = same_text a.key b.key && same_text a.value b.value

-- the number of inodes that the loops look at; `safe_max` has 32 bits
abbrev pub safe_max : TagFs → ℕ
safe_max fs = min (fs.total_inodes % 2 ^ 32) max_files

-- the slot of the file in the table
unfoldable pub tagfs_get_inode : TagFs → ℕ → Option ℕ
tagfs_get_inode fs inode_id =
    first_from (λ i. (fs.inode_table i).inode_id == inode_id) 0 (safe_max fs)

abbrev pub has_tag : List Tag → Tag → Bool
has_tag [] tag = false
has_tag (t ∷ ts) tag = tagfs_tag_equal t tag || has_tag ts tag

unfoldable pub tagfs_file_has_tag : TagFs → ℕ → Tag → Bool
tagfs_file_has_tag fs inode_id tag = elim (tagfs_get_inode fs inode_id) [
  | none ↦ false
  | some i ↦ has_tag (fs.inode_table i).tags tag
]

-- The tags that are written out, if the file is there.
unfoldable pub tagfs_get_tags : TagFs → ℕ → Option (List Tag)
tagfs_get_tags fs inode_id = elim (tagfs_get_inode fs inode_id) [
  | none ↦ none
  | some i ↦ some (fs.inode_table i).tags
]

abbrev pub lists : List ℕ → ℕ → Bool
lists [] id = false
lists (x ∷ xs) id = (x == id) || lists xs id

-- the file enters the entry, unless it is there or the array cannot grow
unfoldable pub add_id : Bool → TagIndexEntry → ℕ → TagIndexEntry
add_id granted e inode_id =
    let longer = e.inode_ids ++ inode_id ∷ [] in
    if lists e.inode_ids inode_id
    then e
    else (if leb e.capacity (length e.inode_ids)
        then (if granted
            then record e { capacity = e.capacity * 2 % 2 ^ 32; inode_ids = longer }
            else e)
        else record e { inode_ids = longer })

-- the body of the loop over the tags, with `n` entries in front of those given
unfoldable pub index_tag : Bool → ℕ → Tag → ℕ → List TagIndexEntry → List TagIndexEntry
index_tag granted inode_id tag n [] =
    let entry : TagIndexEntry = record { tag = tag; capacity = 16; inode_ids = inode_id ∷ [] } in
    if leb max_tag_index n then [] else (if granted then entry ∷ [] else [])
index_tag granted inode_id tag n (e ∷ es) =
    let rest = index_tag granted inode_id tag (n + 1) es in
    if tagfs_tag_equal e.tag tag then add_id granted e inode_id ∷ es else e ∷ rest

-- `granted` for each of the tags
unfoldable pub tagfs_index_add_file :
    List TagIndexEntry → ℕ → List (Bool × Tag) → List TagIndexEntry
tagfs_index_add_file index inode_id [] = index
tagfs_index_add_file index inode_id ((granted, tag) ∷ tags) =
    tagfs_index_add_file (index_tag granted inode_id tag 0 index) inode_id tags

abbrev pub without_id : List ℕ → ℕ → List ℕ
without_id [] id = []
without_id (x ∷ xs) id = let rest = x ∷ without_id xs id in if x == id then xs else rest

unfoldable pub tagfs_index_remove_file : List TagIndexEntry → ℕ → List TagIndexEntry
tagfs_index_remove_file [] inode_id = []
tagfs_index_remove_file (e ∷ es) inode_id =
    record e { inode_ids = without_id e.inode_ids inode_id } ∷ tagfs_index_remove_file es inode_id

-- the file in slot `i` with other tags
abbrev pub retag : TagFs → ℕ → List Tag → ℕ → TagFs
retag fs i tags now = record fs {
  inode_table =
      update fs.inode_table i (record (fs.inode_table i) { tags = tags; modification_time = now });
}

-- the body of `tagfs_add_tag` for the file in slot `i`
abbrev pub tag_slot : TagFs → ℕ → Tag → ℕ → Bool → ℕ → Bool × TagFs
tag_slot fs inode_id tag now granted i =
    let tags = (fs.inode_table i).tags in
    let added = record (retag fs i (tags ++ tag ∷ []) now) {
      tag_index = tagfs_index_add_file fs.tag_index inode_id ((granted, tag) ∷ []);
      tags_added = (fs.tags_added + 1) % 2 ^ 64;
    } in
    if leb max_tags_per_file (length tags)
    then (false, fs)
    else (if has_tag tags tag then (true, fs) else (true, added))

-- whether the call returned 1, and what it leaves
unfoldable pub tagfs_add_tag : TagFs → ℕ → Tag → ℕ → Bool → Bool × TagFs
tagfs_add_tag fs inode_id tag now granted = elim (tagfs_get_inode fs inode_id) [
  | none ↦ (false, fs)
  | some i ↦ tag_slot fs inode_id tag now granted i
]

-- the first tag with the key goes; `none` where there is no such tag
unfoldable pub without_key : List Tag → List ℕ → Option (List Tag)
without_key [] key = none
without_key (t ∷ ts) key =
    let rest : Option (List Tag) = elim (without_key ts key) [
      | none ↦ none
      | some ts' ↦ some (t ∷ ts')
    ] in
    if same_text t.key key then some ts else rest

-- The index is left as it is.
unfoldable pub tagfs_remove_tag : TagFs → ℕ → List ℕ → ℕ → Bool × TagFs
tagfs_remove_tag fs inode_id key now = elim (tagfs_get_inode fs inode_id) [
  | none ↦ (false, fs)
  | some i ↦ elim (without_key (fs.inode_table i).tags key) [
    | none ↦ (false, fs)
    | some tags ↦
        (true, record (retag fs i tags now) { tags_removed = (fs.tags_removed + 1) % 2 ^ 64 })
  ]
]
