-- ===== src/Vmm/Rewrite.antt =====
-- A write to the entry of an address at the lowest level of the tables of vmm.c: it changes what is
-- mapped at that page, and nothing else.
use box_kernel.Base.{
  ℕ, ◌+◌, ◌*◌, ◌%◌, ◌^◌, ◌<◌, ◌≡◌, refl, sym, ◌∙◌, ap, inl, inr, some, ◌==◌, if◌then◌else◌, arith,
  Bool-cases, ==→ne, ==_iff,
}
use mathlib.Core.Path.{subst}
use box_kernel.Pmm.{Zone, pmm_page_size}
use box_kernel.Pmm.Alloc.{IsValid}
use box_kernel.Vmm.{Vmm, pt_index}
use box_kernel.Vmm.Entry.{page_of, page_of-indices, indices_of_page}
use box_kernel.Vmm.Tree.{
  Places, IsTree, follow, follow_place, read, number_of, overwrite, read-written_ne,
  read-written_self, written-IsTree,
}
use box_kernel.Vmm.Space.{way_down, entry_at, IsSpace}

-- `s'` is `s` with the entry `e` for the page of an address, in the same tables.
pub record Rewritten (s s' : Vmm) (ctx : ℕ) (places : Places) (addr e : ℕ) : Type 0 where
  pub is_space : IsSpace s' ctx places
  pub entry :
      (w : ℕ)
      → entry_at s' (s'.contexts ctx).pml4 w
        ≡ (if page_of addr == page_of w then e else entry_at s (s.contexts ctx).pml4 w)

module _ {s : Vmm} {ctx : ℕ} {places : Places} (h : IsSpace s ctx places) where
  abbrev root : ℕ
  root = (s.contexts ctx).pml4

  module _ (addr t e : ℕ) (leads : follow s.memory root (way_down addr) ≡ some t) where
    abbrev table_number : ℕ
    table_number = number_of 0 (way_down addr)

    table_place : places t ≡ some (3, table_number)
    table_place = follow_place h.ready.tree (way_down addr) root 0 0 t h.ready.tree.top refl leads

    abbrev memory' : ℕ → ℕ → ℕ
    memory' = overwrite s.memory t (pt_index addr) e

    entry_rewritten :
        (w : ℕ)
        → read memory' (follow memory' root (way_down w)) (pt_index w)
          ≡ (if page_of addr == page_of w then e else entry_at s root w)
    entry_rewritten w = elim (Bool-cases (page_of addr == page_of w)) [
      | inl same ↦
          let (i, j, k, l) = indices_of_page addr w ((==_iff (page_of addr) (page_of w)).0 same) in
          rw (same, sym i, sym j, sym k, sym l)
            (read-written_self h.ready.tree t table_number (pt_index addr) e table_place
              (way_down addr) root 0 0 h.ready.tree.top refl leads)
      | inr other ↦ rw other (
          read-written_ne h.ready.tree t table_number (pt_index addr) e table_place (way_down w)
            root 0 0 (pt_index w) h.ready.tree.top refl
            (λ eq.
              ==→ne (page_of addr) (page_of w) other
                (omega (arith, eq, page_of-indices addr, page_of-indices w))))
    ]

    pub rewritten_lem :
        (s' : Vmm)
        → s'.zone ≡ s.zone
        → s'.memory ≡ memory'
        → (s'.contexts ctx).pml4 ≡ root
        → Rewritten s s' ctx places addr e
    rewritten_lem s' zone memory top =
        let tree : IsTree s'.zone s'.memory (s'.contexts ctx).pml4 places =
          subst (λ z. IsTree z s'.memory (s'.contexts ctx).pml4 places) (sym zone)
            (subst (λ m. IsTree s.zone m (s'.contexts ctx).pml4 places) (sym memory)
              (subst (λ r. IsTree s.zone memory' r places) (sym top)
                (written-IsTree h.ready.tree t table_number (pt_index addr) e table_place))) in
        record {
          is_space = record {
            exists = h.exists;
            has_top = λ eq. h.has_top (sym top ∙ eq);
            ready = record {
              zone_valid = subst IsValid (sym zone) h.ready.zone_valid;
              base_aligned = ap (λ (z : Zone). z.base % 4096) zone ∙ h.ready.base_aligned;
              addressable =
                  subst (λ (z : Zone). z.base + z.pages * pmm_page_size < 2 ^ 52) (sym zone)
                    h.ready.addressable;
              tree = tree;
            };
          };
          entry = λ w.
              ap (λ m. read m (follow m (s'.contexts ctx).pml4 (way_down w)) (pt_index w)) memory
              ∙ ap (λ r. read memory' (follow memory' r (way_down w)) (pt_index w)) top
              ∙ entry_rewritten w;
        }

-- Addresses of one page share the entry.
pub entry_of_page : (s : Vmm) (r a b : ℕ) → page_of a ≡ page_of b → entry_at s r a ≡ entry_at s r b
entry_of_page s r a b same = let (i, j, k, l) = indices_of_page a b same in rw (i, j, k, l) refl
