-- ===== src/Boot/Backed.antt =====
-- The space for the kernel that cboot_main of bootloader/cboot/src/main.c takes is mapped.
use learning_osdev.Base.{
  ℕ, zero, suc, ◌+◌, ◌-◌, ◌*◌, ◌/◌, ◌^◌, ◌≤◌, ◌<◌, ◌≡◌, ◌∙◌, refl, ap, arith, true, false, u64,
  List, [], ◌∷◌, some, none, Option, Bool-cases, inl, inr,
}
use learning_osdev.Paging.{Paging}
use learning_osdev.Paging.Walk.{translate, page}
use learning_osdev.Bios.{BiosMemoryRegion}
use learning_osdev.Bios.Space.{suits, first_suitable}
use learning_osdev.Boot.{kernel_space, backed_at, are_backed, is_backed}

-- The space at `exe` is mapped to the bytes from the physical address `paddr` on.
abbrev pub MapsSpace : Paging → ℕ → ℕ → Type 0
MapsSpace s exe paddr = (i : ℕ) → i < kernel_space → translate s (exe + i) ≡ page 2 (paddr + i)

module _ (s : Paging) (exe paddr : ℕ) (maps : MapsSpace s exe paddr) (high : 0x100000 ≤ paddr)
    (above : s.it ≤ paddr) (fits : exe + kernel_space < 2 ^ 64) where
  backed_at-space : (i : ℕ) → i < kernel_space → backed_at s (translate s (exe + i)) ≡ true
  backed_at-space i lt = rw (maps i lt) (ground arith)

  are_backed-space :
      (left i : ℕ)
      → (i + left) * 0x1000 ≤ kernel_space
      → are_backed left s (exe + i * 0x1000) ≡ true
  unfolding are_backed
  are_backed-space zero i le = refl
  are_backed-space (suc left) i le =
      let next : u64 (exe + i * 0x1000 + 0x1000) ≡ exe + (i + 1) * 0x1000 = omega arith in
      let here = backed_at-space (i * 0x1000) (omega arith) in
      rw (here, next) (are_backed-space left (i + 1) (omega arith))

  pub is_backed-space : is_backed exe s ≡ true
  unfolding is_backed
  is_backed-space =
      let begin : exe ≡ exe + 0 * 0x1000 = omega arith in
      let last : u64 (exe + (kernel_space - 1)) ≡ exe + (kernel_space - 1) = omega arith in
      let pages : are_backed (kernel_space / 0x1000) s exe ≡ true =
        ap (λ (v : ℕ). are_backed (kernel_space / 0x1000) s v) begin
        ∙ are_backed-space (kernel_space / 0x1000) 0 (omega arith) in
      rw (pages, last) (backed_at-space (kernel_space - 1) (omega arith))

base-injective :
    {q r : BiosMemoryRegion}
    → ◌≡◌ {A = Option BiosMemoryRegion} (some q) (some r)
    → q.base_address ≡ r.base_address
base-injective {q} e =
    ap (λ (o : Option BiosMemoryRegion). elim o [ none ↦ q.base_address | some t ↦ t.base_address ])
      e

-- A region that suits begins at 1 MiB or above.
pub first_suitable-high :
    (rs : List BiosMemoryRegion) (r : BiosMemoryRegion)
    → first_suitable kernel_space rs ≡ some r
    → 0x100000 ≤ r.base_address
first_suitable-high [] r e = absurd (ground arith)
first_suitable-high (q ∷ rs) r e = elim (Bool-cases (suits kernel_space q)) [
  | inl fit ↦
      let chosen : ◌≡◌ {A = Option BiosMemoryRegion} (some q) (some r) = rw fit at e in
      let same : q.base_address ≡ r.base_address = base-injective chosen in ground arith
  | inr other ↦ first_suitable-high rs r (rw other at e)
]

are_backed-first :
    (left : ℕ) (s : Paging) (v : ℕ)
    → backed_at s (translate s v) ≡ false
    → are_backed (suc left) s v ≡ false
unfolding are_backed
are_backed-first left s v e = rw e refl

-- Where the address 0 is mapped to itself, the space at 0 is not backed.
pub is_backed-null : (s : Paging) (k : ℕ) → translate s 0 ≡ page k 0 → is_backed 0 s ≡ false
unfolding is_backed
is_backed-null s k e =
    let low : backed_at s (translate s 0) ≡ false = rw e refl in
    rw (are_backed-first 65535 s 0 low) refl
