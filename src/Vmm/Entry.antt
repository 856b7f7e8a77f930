-- ===== src/Vmm/Entry.antt =====
-- What the masks of vmm.h make of an entry: its bits as numbers.
use box_kernel.Base.{
  ℕ, ◌+◌, ◌*◌, ◌/◌, ◌%◌, ◌^◌, ◌<◌, ◌≡◌, sym, ◌∙◌, ap, not, bit_and, bit_or, ◌==◌, arith,
  bit_and-mask, bit_and_split, bit_or_split, bit_and-none, bit_or-none, none-bit_or, bit_and_one,
}
use box_kernel.Vmm.{
  has_flag, vmm_is_page_aligned, vmm_page_align_down, vmm_pte_to_phys, vmm_pte_to_flags,
  vmm_make_pte, pml4_index, pdpt_index, pd_index, pt_index, page_mask, pte_addr_mask,
  pte_flags_mask,
}

pub pte_to_phys_value : (e : ℕ) → vmm_pte_to_phys e ≡ e / 4096 % 2 ^ 40 * 4096
unfolding vmm_pte_to_phys
pte_to_phys_value e = omega (
  arith,
  bit_and_split 12 e pte_addr_mask,
  bit_and-mask 40 (e / 2 ^ 12),
  bit_and-none (e % 2 ^ 12),
)

pub pte_to_flags_value : (e : ℕ) → vmm_pte_to_flags e ≡ e / 2 ^ 63 % 2 * 2 ^ 63 + e % 4096
unfolding vmm_pte_to_flags
pte_to_flags_value e = omega (
  arith,
  bit_and_split 63 e pte_flags_mask,
  bit_and-mask 12 (e % 2 ^ 63),
  bit_and_one (e / 2 ^ 63),
)

pub make_pte_value :
    (p f : ℕ) → vmm_make_pte p f ≡ f / 2 ^ 63 % 2 * 2 ^ 63 + p / 4096 % 2 ^ 40 * 4096 + f % 4096
unfolding vmm_make_pte vmm_pte_to_phys vmm_pte_to_flags
make_pte_value p f =
    let a = vmm_pte_to_phys p in
    let b = vmm_pte_to_flags f in
    let low : a % 2 ^ 12 ≡ 0 = omega (arith, pte_to_phys_value p) in
    let top : a / 2 ^ 12 / 2 ^ 51 ≡ 0 = omega (arith, pte_to_phys_value p) in
    let gap : b / 2 ^ 12 % 2 ^ 51 ≡ 0 = omega (arith, pte_to_flags_value f) in
    let high : bit_or (a / 2 ^ 12) (b / 2 ^ 12)
        ≡ b / 2 ^ 12 / 2 ^ 51 * 2 ^ 51 + a / 2 ^ 12 % 2 ^ 51 =
      bit_or_split 51 (a / 2 ^ 12) (b / 2 ^ 12)
      ∙ rw (top, gap)
          (omega (arith, none-bit_or (b / 2 ^ 12 / 2 ^ 51), bit_or-none (a / 2 ^ 12 % 2 ^ 51))) in
    let whole : bit_or a b ≡ bit_or (a / 2 ^ 12) (b / 2 ^ 12) * 2 ^ 12 + b % 2 ^ 12 =
      bit_or_split 12 a b ∙ rw low (omega (arith, none-bit_or (b % 2 ^ 12))) in
    omega (arith, whole, high, pte_to_phys_value p, pte_to_flags_value f)

-- The address of an entry and its flags come back.
pub pte_to_phys-make_pte : (p f : ℕ) → vmm_pte_to_phys (vmm_make_pte p f) ≡ vmm_pte_to_phys p
pte_to_phys-make_pte p f =
    omega (arith, pte_to_phys_value (vmm_make_pte p f), pte_to_phys_value p, make_pte_value p f)

pub pte_to_flags-make_pte : (p f : ℕ) → vmm_pte_to_flags (vmm_make_pte p f) ≡ vmm_pte_to_flags f
pte_to_flags-make_pte p f =
    omega (arith, pte_to_flags_value (vmm_make_pte p f), pte_to_flags_value f, make_pte_value p f)

pub aligned_iff : (a : ℕ) → vmm_is_page_aligned a ≡ (a % 4096 == 0)
unfolding vmm_is_page_aligned
aligned_iff a = ap (λ n. n == 0) (bit_and-mask 12 a)

pub align_down_value : (a : ℕ) → a < 2 ^ 64 → vmm_page_align_down a ≡ a / 4096 * 4096
unfolding vmm_page_align_down
align_down_value a h =
    omega
      (arith, bit_and_split 12 a page_mask, bit_and-mask 52 (a / 2 ^ 12), bit_and-none (a % 2 ^ 12))

-- a flag among the lowest 12 bits
has_flag_low : (e flag : ℕ) → flag < 2 ^ 12 → has_flag e flag ≡ has_flag (e % 2 ^ 12) flag
unfolding has_flag
has_flag_low e flag h =
    let above : flag / 2 ^ 12 ≡ 0 = omega arith in
    let same : flag % 2 ^ 12 ≡ flag = omega arith in
    ap (λ n. not (n == 0))
      (bit_and_split 12 e flag ∙ rw (above, same) (omega (arith, bit_and-none (e / 2 ^ 12))))

pub has_flag-make_pte :
    (p f flag : ℕ) → flag < 2 ^ 12 → has_flag (vmm_make_pte p f) flag ≡ has_flag f flag
has_flag-make_pte p f flag h =
    let low : vmm_make_pte p f % 2 ^ 12 ≡ f % 2 ^ 12 = omega (arith, make_pte_value p f) in
    has_flag_low (vmm_make_pte p f) flag h
    ∙ ap (λ e. has_flag e flag) low
    ∙ sym (has_flag_low f flag h)

-- A virtual address's page among the 2^36 of an address space.
abbrev pub page_of : ℕ → ℕ
page_of addr = addr / 4096 % 2 ^ 36

abbrev pub number : ℕ → ℕ → ℕ
number n i = n * 512 + i

-- The four indices of an address spell its page.
pub page_of-indices :
    (addr : ℕ)
    → page_of addr
      ≡ number (number (number (pml4_index addr) (pdpt_index addr)) (pd_index addr)) (pt_index addr)
page_of-indices addr = omega (
  arith,
  bit_and-mask 9 (addr / 2 ^ 39),
  bit_and-mask 9 (addr / 2 ^ 30),
  bit_and-mask 9 (addr / 2 ^ 21),
  bit_and-mask 9 (addr / 2 ^ 12),
)

-- Addresses of one page have the same indices.
pub indices_of_page :
    (a b : ℕ)
    → page_of a ≡ page_of b
    → (pml4_index a ≡ pml4_index b)
      × (pdpt_index a ≡ pdpt_index b)
      × (pd_index a ≡ pd_index b)
      × (pt_index a ≡ pt_index b)
indices_of_page a b same =
    let value : (x k : ℕ) → bit_and (x / 2 ^ k) 511 ≡ x / 2 ^ k % 512 =
      λ x k. bit_and-mask 9 (x / 2 ^ k) in
    (
      omega (arith, value a 39, value b 39),
      omega (arith, value a 30, value b 30),
      omega (arith, value a 21, value b 21),
      omega (arith, value a 12, value b 12),
    )
