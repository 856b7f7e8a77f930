-- ===== src/Tagfs/Query.antt =====
-- Queries by tags: storage/tagfs.c, `tagfs_query_single`, `tagfs_query` and the user's context.
pub mod And
use box_kernel.Base.{
  ℕ, zero, suc, ◌+◌, ◌%◌, ◌^◌, min, Bool, true, false, not, ◌&&◌, ◌||◌, Option, none, some, List,
  [], ◌∷◌, ◌++◌, length, take, ltb, leb, ◌==◌, if◌then◌else◌, update,
}
use box_kernel.Tagfs.{
  Tag, FileInode, TagIndexEntry, TagFsUserContext, TagFs, max_files, max_context_tags, safe_max,
  tagfs_tag_equal, tagfs_get_inode, tagfs_file_has_tag, lists,
}

-- the ids of the first entry for the tag
unfoldable pub index_find : List TagIndexEntry → Tag → Option (List ℕ)
index_find [] tag = none
index_find (e ∷ es) tag =
    let rest = index_find es tag in if tagfs_tag_equal e.tag tag then some e.inode_ids else rest

-- The results, and whether the call returned 1; the query is counted where it did.
unfoldable pub tagfs_query_single : TagFs → Tag → ℕ → (List ℕ × Bool) × TagFs
tagfs_query_single fs tag max_results = elim (index_find fs.tag_index tag) [
  | none ↦ (([], false), fs)
  | some ids ↦ (
    (take max_results ids, true),
    record fs { queries_executed = (fs.queries_executed + 1) % 2 ^ 64 },
  )
]

-- the inner loop: the candidates that have the tag
unfoldable pub filter_tag : TagFs → Tag → List ℕ → List ℕ
filter_tag fs tag [] = []
filter_tag fs tag (id ∷ ids) =
    let rest = filter_tag fs tag ids in if tagfs_file_has_tag fs id tag then id ∷ rest else rest

-- the loop over the tags but the first
unfoldable pub filter_tags : TagFs → List Tag → List ℕ → List ℕ
filter_tags fs [] ids = ids
filter_tags fs (tag ∷ tags) ids = filter_tags fs tags (filter_tag fs tag ids)

pub data QueryOperator : Type 0 where
  and or not_op : QueryOperator

-- The loop of the OR query over the results for one tag: those that are new, below the bound, go to
-- the end of the results while there is room. `seen` marks the ids.
unfoldable pub collect_new : (ℕ → Bool) → ℕ → List ℕ → List ℕ → (ℕ → Bool) × List ℕ
collect_new seen room results [] = (seen, results)
collect_new seen room results (id ∷ ids) =
    let fresh = ltb id max_files && not (seen id) in
    let room_left = ltb (length results) room in
    collect_new (λ j. (fresh && (id == j)) || seen j) room
      (if fresh && room_left then results ++ id ∷ [] else results) ids

-- the loop over the tags
unfoldable pub collect_any : TagFs → (ℕ → Bool) → ℕ → List ℕ → List Tag → List ℕ × TagFs
collect_any fs seen room results [] = (results, fs)
collect_any fs seen room results (tag ∷ tags) =
    let r = tagfs_query_single fs tag 256 in
    let (seen', results') = collect_new seen room results r.0.0 in
    collect_any r.1 seen' room results' tags

-- The results of a query, which `kmalloc` has granted its scratch memory, with room for `capacity`;
-- `none` is the return code 0. A NOT query finds nothing.
unfoldable pub tagfs_query : TagFs → List Tag → QueryOperator → ℕ → Option (List ℕ) × TagFs
tagfs_query fs [] op capacity = (none, fs)
tagfs_query fs (tag ∷ tags) QueryOperator.and capacity =
    let r = tagfs_query_single fs tag max_files in
    (
      some (take capacity (filter_tags r.1 tags r.0.0)),
      record r.1 { queries_executed = (r.1.queries_executed + 1) % 2 ^ 64 },
    )
tagfs_query fs (tag ∷ tags) QueryOperator.or capacity =
    let (results, fs') = collect_any fs (λ j. false) capacity [] (tag ∷ tags) in
    (some results, record fs' { queries_executed = (fs'.queries_executed + 1) % 2 ^ 64 })
tagfs_query fs (tag ∷ tags) QueryOperator.not_op capacity =
    (some [], record fs { queries_executed = (fs.queries_executed + 1) % 2 ^ 64 })

-- whether the call returned 0
unfoldable pub tagfs_context_set : TagFs → List Tag → Bool × TagFs
tagfs_context_set fs tags =
    if ltb max_context_tags (length tags)
    then (false, fs)
    else (true, record fs { user_context = record { tags = tags; enabled = true } })

unfoldable pub tagfs_context_clear : TagFs → TagFs
tagfs_context_clear fs = record fs { user_context = record { tags = []; enabled = false } }

abbrev pub has_all : TagFs → ℕ → List Tag → Bool
has_all fs inode_id [] = true
has_all fs inode_id (tag ∷ tags) = tagfs_file_has_tag fs inode_id tag && has_all fs inode_id tags

unfoldable pub tagfs_context_matches : TagFs → ℕ → Bool
tagfs_context_matches fs inode_id =
    if not fs.user_context.enabled then true else elim (tagfs_get_inode fs inode_id) [
      | none ↦ false
      | some i ↦ has_all fs inode_id fs.user_context.tags
    ]

-- "trashed:true", as `tagfs_tag_from_string` reads it
abbrev pub trash_tag : Tag
trash_tag = record {
  key = 116 ∷ 114 ∷ 97 ∷ 115 ∷ 104 ∷ 101 ∷ 100 ∷ 0 ∷ [];
  value = 116 ∷ 114 ∷ 117 ∷ 101 ∷ 0 ∷ [];
}

-- whether the list of files shows the file in slot `i`
abbrev pub is_shown : TagFs → ℕ → Bool
is_shown fs i =
    let id = (fs.inode_table i).inode_id in
    not (id == 0) && not (tagfs_file_has_tag fs id trash_tag) && tagfs_context_matches fs id

-- the loop over the `n` slots from `i` on, with room for `room` more
unfoldable pub list_files : TagFs → ℕ → ℕ → ℕ → List ℕ
list_files fs i zero room = []
list_files fs i (suc n) zero = []
list_files fs i (suc n) (suc room) = elim (is_shown fs i) [
  | true ↦ (fs.inode_table i).inode_id ∷ list_files fs (i + 1) n room
  | false ↦ list_files fs (i + 1) n (suc room)
]

unfoldable pub tagfs_context_list_files : TagFs → ℕ → List ℕ
tagfs_context_list_files fs max_results = list_files fs 0 (safe_max fs) max_results
