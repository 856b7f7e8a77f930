-- ===== src/Tagfs/Lookup.antt =====
-- A tag that is added is found: storage/tagfs.c, `tagfs_add_tag` and the index.
use mathlib.Core.Path.{subst}
use box_kernel.Base.{
  ℕ, ◌+◌, ◌%◌, ◌^◌, ◌<◌, ◌≡◌, refl, ◌∙◌, ap, inl, inr, true, false, Option, none, some, List, [],
  ◌∷◌, ◌++◌, length, leb, ◌==◌, if-both, Bool-cases, update_self, update_ne, ==_iff, ==→ne,
  first_from-same, arith,
}
use box_kernel.Klib.{pos, negsuc}
use box_kernel.Klib.Strings.{strcmp-zero_of_eq}
use box_kernel.Tagfs.{
  same_text, Tag, FileInode, TagIndexEntry, TagFs, max_tag_index, max_tags_per_file,
  tagfs_tag_equal, tagfs_get_inode, tagfs_file_has_tag, has_tag, lists, add_id, index_tag,
  tagfs_index_add_file, tagfs_add_tag, tag_slot, retag, safe_max,
}
use box_kernel.Tagfs.Query.{index_find}

pub same_text_self : (a : List ℕ) → same_text a a ≡ true
same_text_self a =
    ap (λ z. elim z [ pos n ↦ n == 0 | negsuc n ↦ false ]) (strcmp-zero_of_eq a a refl)

tagfs_tag_equal_self : (t : Tag) → tagfs_tag_equal t t ≡ true
unfolding tagfs_tag_equal
tagfs_tag_equal_self t = rw (same_text_self t.key) (same_text_self t.value)

has_tag-snoc : (ts : List Tag) (tag : Tag) → has_tag (ts ++ tag ∷ []) tag ≡ true
has_tag-snoc [] tag = rw (tagfs_tag_equal_self tag) refl
has_tag-snoc (t ∷ ts) tag = ground (arith, has_tag-snoc ts tag)

lists-snoc : (xs : List ℕ) (id : ℕ) → lists (xs ++ id ∷ []) id ≡ true
lists-snoc [] id = ground arith
lists-snoc (x ∷ xs) id = ground (arith, lists-snoc xs id)

-- With memory the file is in the entry, and the entry keeps its tag.
add_id-lists :
    (e : TagIndexEntry) (id : ℕ)
    → (lists (add_id true e id).inode_ids id ≡ true) × ((add_id true e id).tag ≡ e.tag)
unfolding add_id
add_id-lists e id = elim (Bool-cases (lists e.inode_ids id)) [
  | inl there ↦ rw there (there, refl)
  | inr off ↦ rw off (
      if-both (λ (e' : TagIndexEntry). (lists e'.inode_ids id ≡ true) × (e'.tag ≡ e.tag))
        (leb e.capacity (length e.inode_ids)) (lists-snoc e.inode_ids id, refl)
        (lists-snoc e.inode_ids id, refl))
]

-- With memory and room in the index, the tag's entry lists the file.
index_find-index_tag :
    (id : ℕ) (tag : Tag) (n : ℕ) (es : List TagIndexEntry)
    → n + length es < max_tag_index
    → (ids : List ℕ) × (index_find (index_tag true id tag n es) tag ≡ some ids)
      × (lists ids id ≡ true)
unfolding index_tag index_find
index_find-index_tag id tag n [] room =
    let full : leb max_tag_index n ≡ false = ground (arith, room) in
    (id ∷ [], rw full (rw (tagfs_tag_equal_self tag) refl), ground arith)
index_find-index_tag id tag n (e ∷ es) room =
    let (ids, find, there) = index_find-index_tag id tag (n + 1) es (omega (arith, room)) in
    elim (Bool-cases (tagfs_tag_equal e.tag tag)) [
      | inl hit ↦
          let (listed, kept) = add_id-lists e id in
          let hit' : tagfs_tag_equal (add_id true e id).tag tag ≡ true =
            ap (λ t. tagfs_tag_equal t tag) kept ∙ hit in
          ((add_id true e id).inode_ids, rw hit (rw hit' refl), listed)
      | inr miss ↦ (ids, rw miss (rw miss find), there)
    ]

-- the state after the tag is added to the file in slot `i`
abbrev pub tagged : TagFs → ℕ → Tag → ℕ → ℕ → TagFs
tagged fs inode_id tag now i = record (retag fs i ((fs.inode_table i).tags ++ tag ∷ []) now) {
  tag_index = tagfs_index_add_file fs.tag_index inode_id ((true, tag) ∷ []);
  tags_added = (fs.tags_added + 1) % 2 ^ 64;
}

pub tagfs_get_inode-tagged :
    (fs : TagFs) (id : ℕ) (tag : Tag) (now i other : ℕ)
    → tagfs_get_inode (tagged fs id tag now i) other ≡ tagfs_get_inode fs other
unfolding tagfs_get_inode
tagfs_get_inode-tagged fs id tag now i other =
    first_from-same (λ j. ((tagged fs id tag now i).inode_table j).inode_id == other)
      (λ j. (fs.inode_table j).inode_id == other) 0 (safe_max fs)
      (λ j l h. ap (λ n. n == other) (tagged-id j))
  where
    tagged-id :
        (j : ℕ) → ((tagged fs id tag now i).inode_table j).inode_id ≡ (fs.inode_table j).inode_id
    tagged-id j = elim (Bool-cases (i == j)) [
      | inl here ↦
          subst
            (λ j. ((tagged fs id tag now i).inode_table j).inode_id ≡ (fs.inode_table j).inode_id)
            ((==_iff i j).0 here)
            (ap (λ (f : FileInode). f.inode_id)
              (update_self fs.inode_table i (record (fs.inode_table i) {
                tags = (fs.inode_table i).tags ++ tag ∷ [];
                modification_time = now;
              })))
      | inr off ↦
          ap (λ (f : FileInode). f.inode_id) (update_ne fs.inode_table i j _ (==→ne i j off))
    ]

tagfs_file_has_tag-found :
    (fs : TagFs) (id i : ℕ) (tag : Tag)
    → tagfs_get_inode fs id ≡ some i
    → tagfs_file_has_tag fs id tag ≡ has_tag (fs.inode_table i).tags tag
unfolding tagfs_file_has_tag
tagfs_file_has_tag-found fs id i tag at_slot =
    ap (λ (o : Option ℕ). elim o [ none ↦ false | some i ↦ has_tag (fs.inode_table i).tags tag ])
      at_slot

leb-few : (n : ℕ) → n < max_tags_per_file → leb max_tags_per_file n ≡ false
leb-few n h = ground (arith, h)

pub tagfs_add_tag-tagged :
    (fs : TagFs) (id i : ℕ) (tag : Tag) (now : ℕ)
    → tagfs_get_inode fs id ≡ some i
    → length (fs.inode_table i).tags < max_tags_per_file
    → has_tag (fs.inode_table i).tags tag ≡ false
    → tagfs_add_tag fs id tag now true ≡ (true, tagged fs id tag now i)
unfolding tagfs_add_tag
tagfs_add_tag-tagged fs id i tag now at_slot few new_tag =
    ap (λ (o : Option ℕ). elim o [ none ↦ (false, fs) | some i ↦ tag_slot fs id tag now true i ])
      at_slot
    ∙ rw (leb-few (length (fs.inode_table i).tags) few) (rw new_tag refl)

pub tagged-tags :
    (fs : TagFs) (id : ℕ) (tag : Tag) (now i : ℕ)
    → ((tagged fs id tag now i).inode_table i).tags ≡ (fs.inode_table i).tags ++ tag ∷ []
tagged-tags fs id tag now i =
    ap (λ (f : FileInode). f.tags)
      (update_self fs.inode_table i (record (fs.inode_table i) {
        tags = (fs.inode_table i).tags ++ tag ∷ [];
        modification_time = now;
      }))

pub tagfs_file_has_tag-tagged :
    (fs : TagFs) (id i : ℕ) (tag : Tag) (now : ℕ)
    → tagfs_get_inode fs id ≡ some i
    → tagfs_file_has_tag (tagged fs id tag now i) id tag ≡ true
tagfs_file_has_tag-tagged fs id i tag now at_slot =
    tagfs_file_has_tag-found (tagged fs id tag now i) id i tag
      (tagfs_get_inode-tagged fs id tag now i id ∙ at_slot)
    ∙ ap (λ ts. has_tag ts tag) (tagged-tags fs id tag now i)
    ∙ has_tag-snoc (fs.inode_table i).tags tag

-- A file with fewer than 32 tags gets a tag that it does not have, where the index has room and
-- memory is granted: then the file has the tag, and the index lists it under the tag.
pub tagfs_add_tag_lem :
    (fs : TagFs) (id i : ℕ) (tag : Tag) (now : ℕ)
    → tagfs_get_inode fs id ≡ some i
    → length (fs.inode_table i).tags < max_tags_per_file
    → has_tag (fs.inode_table i).tags tag ≡ false
    → length fs.tag_index < max_tag_index
    → let r = tagfs_add_tag fs id tag now true in
      (r.0 ≡ true)
      × (tagfs_file_has_tag r.1 id tag ≡ true)
      × ((ids : List ℕ) × (index_find r.1.tag_index tag ≡ some ids) × (lists ids id ≡ true))
unfolding tagfs_index_add_file
tagfs_add_tag_lem fs id i tag now at_slot few new_tag room =
    let run = tagfs_add_tag-tagged fs id i tag now at_slot few new_tag in
    rw run (
      refl,
      tagfs_file_has_tag-tagged fs id i tag now at_slot,
      index_find-index_tag id tag 0 fs.tag_index (omega (arith, room)),
    )
