-- ===== src/Tagfs/Query/And.antt =====
-- What an AND query finds: storage/tagfs.c, `tagfs_query`.
use box_kernel.Base.{
  ℕ, ◌+◌, ◌%◌, ◌^◌, ◌≤◌, ◌≡◌, refl, sym, ◌∙◌, ap, inl, inr, Bool, true, false, ◌&&◌, ◌||◌, Option,
  none, some, List, [], ◌∷◌, length, take, ◌==◌, ==_iff, Bool-cases, arith, zero, suc,
}
use box_kernel.Tagfs.{Tag, TagFs, max_files, tagfs_get_inode, tagfs_file_has_tag, lists}
use box_kernel.Tagfs.Query.{
  index_find, tagfs_query_single, filter_tag, filter_tags, QueryOperator, tagfs_query, has_all,
}

both-false : (a b : Bool) {c : Bool} → c ≡ false → (a && c) ≡ (b && c)
both-false a b h = ground (arith, h)

filter_tag-lists :
    (fs : TagFs) (tag : Tag) (ids : List ℕ) (id : ℕ)
    → lists (filter_tag fs tag ids) id ≡ (lists ids id && tagfs_file_has_tag fs id tag)
unfolding filter_tag
filter_tag-lists fs tag [] id = refl
filter_tag-lists fs tag (x ∷ xs) id =
    let rest = filter_tag-lists fs tag xs id in
    elim (Bool-cases (x == id)) [
      | inl here ↦
          let e : x ≡ id = (==_iff x id).0 here in
          let same : tagfs_file_has_tag fs x tag ≡ tagfs_file_has_tag fs id tag =
            ap (λ z. tagfs_file_has_tag fs z tag) e in
          elim (Bool-cases (tagfs_file_has_tag fs x tag)) [
            | inl has_it ↦ rw has_it (rw here (sym (sym same ∙ has_it)))
            | inr not_there ↦
                rw not_there (
                  rest ∙ both-false (lists xs id) ((x == id) || lists xs id) (sym same ∙ not_there))
          ]
      | inr off ↦ elim (Bool-cases (tagfs_file_has_tag fs x tag)) [
        | inl has_it ↦ rw has_it (rw off rest)
        | inr not_there ↦ rw not_there (rw off rest)
      ]
    ]

filter_tag-length :
    (fs : TagFs) (tag : Tag) (ids : List ℕ) → length (filter_tag fs tag ids) ≤ length ids
unfolding filter_tag
filter_tag-length fs tag [] = omega arith
filter_tag-length fs tag (x ∷ xs) =
    let rest = filter_tag-length fs tag xs in
    elim (Bool-cases (tagfs_file_has_tag fs x tag)) [
      | inl has_it ↦ rw has_it (omega (arith, rest))
      | inr not_there ↦ rw not_there (omega (arith, rest))
    ]

filter_tags-length :
    (fs : TagFs) (tags : List Tag) (ids : List ℕ) → length (filter_tags fs tags ids) ≤ length ids
unfolding filter_tags
filter_tags-length fs [] ids = omega arith
filter_tags-length fs (tag ∷ tags) ids =
    omega (arith, filter_tags-length fs tags (filter_tag fs tag ids), filter_tag-length fs tag ids)

filter_tags-lists :
    (fs : TagFs) (tags : List Tag) (ids : List ℕ) (id : ℕ)
    → lists (filter_tags fs tags ids) id ≡ (lists ids id && has_all fs id tags)
unfolding filter_tags
filter_tags-lists fs [] ids id = ground arith
filter_tags-lists fs (tag ∷ tags) ids id =
    filter_tags-lists fs tags (filter_tag fs tag ids) id
    ∙ rw (filter_tag-lists fs tag ids id) (ground arith)

take-all : (n : ℕ) (xs : List ℕ) → length xs ≤ n → take n xs ≡ xs
take-all zero [] h = refl
take-all zero (x ∷ xs) h = absurd (omega arith)
take-all (suc n) [] h = refl
take-all (suc n) (x ∷ xs) h = ap (λ l. x ∷ l) (take-all n xs (omega arith))

-- Counting a query changes no file.
counted-has_all :
    (fs : TagFs) (n id : ℕ) (tags : List Tag)
    → has_all (record fs { queries_executed = n }) id tags ≡ has_all fs id tags
unfolding tagfs_file_has_tag tagfs_get_inode
counted-has_all fs n id [] = refl
counted-has_all fs n id (tag ∷ tags) =
    ap (λ b. tagfs_file_has_tag fs id tag && b) (counted-has_all fs n id tags)

tagfs_query_single-found :
    (fs : TagFs) (tag : Tag) (max_results : ℕ) (ids : List ℕ)
    → index_find fs.tag_index tag ≡ some ids
    → tagfs_query_single fs tag max_results ≡ (
      (take max_results ids, true),
      record fs { queries_executed = (fs.queries_executed + 1) % 2 ^ 64 },
    )
unfolding tagfs_query_single
tagfs_query_single-found fs tag max_results ids find =
    ap
      (λ (o : Option (List ℕ)). elim o [
        | none ↦ (([], false), fs)
        | some ids ↦ (
          (take max_results ids, true),
          record fs { queries_executed = (fs.queries_executed + 1) % 2 ^ 64 },
        )
      ])
      find

-- An AND query whose first tag is in the index, with no more than 65536 files and with room for
-- them, returns 1 and finds exactly the files that the index lists for that tag and that have all
-- the other tags.
pub tagfs_query-and :
    (fs : TagFs) (tag : Tag) (tags : List Tag) (capacity : ℕ) (ids : List ℕ)
    → index_find fs.tag_index tag ≡ some ids
    → length ids ≤ max_files
    → length ids ≤ capacity
    → (results : List ℕ) × ((tagfs_query fs (tag ∷ tags) QueryOperator.and capacity).0
        ≡ some results)
      × ((id : ℕ) → lists results id ≡ (lists ids id && has_all fs id tags))
unfolding tagfs_query
tagfs_query-and fs tag tags capacity ids find below room =
    let fs' : TagFs = record fs { queries_executed = (fs.queries_executed + 1) % 2 ^ 64 } in
    let results = filter_tags fs' tags ids in
    let short : length results ≤ capacity = omega (arith, filter_tags-length fs' tags ids, room) in
    (
      results,
      ap (λ (r : (List ℕ × Bool) × TagFs). some (take capacity (filter_tags r.1 tags r.0.0)))
            (tagfs_query_single-found fs tag max_files ids find)
          ∙ ap (λ l. some (take capacity (filter_tags fs' tags l))) (take-all max_files ids below)
          ∙ ap some (take-all capacity results short),
      λ id.
          filter_tags-lists fs' tags ids id
          ∙ ap (λ b. lists ids id && b)
              (counted-has_all fs ((fs.queries_executed + 1) % 2 ^ 64) id tags),
    )
