-- ===== src/Boot/Map.antt =====
-- The memory map of the BIOS is the same where the bytes below 0x1000 are.
use learning_osdev.Base.{ℕ, ◌+◌, ◌*◌, ◌≤◌, ◌<◌, ◌≡◌, refl, arith, List, length}
use learning_osdev.Mem.{Memory}
use learning_osdev.Mem.Words.{load64-cong}
use learning_osdev.Elf.Words.{load32-cong}
use learning_osdev.Bios.{BiosMemoryRegion}
use learning_osdev.Bios.Regions.{IsMap, IsMap-cong}
use learning_osdev.Boot.{memmap_at}

module _ (m n : Memory) (same : (a : ℕ) → a < 0x1000 → m a ≡ n a) where
  memmap_at-cong : (i : ℕ) → 0x500 + 24 * (i + 1) ≤ 0x1000 → memmap_at m i ≡ memmap_at n i
  unfolding memmap_at
  memmap_at-cong i near =
      rw
        (
          load64-cong m n (0x500 + 24 * i) (λ a lo hi. same a (omega arith)),
          load64-cong m n (0x500 + 24 * i + 8) (λ a lo hi. same a (omega arith)),
          load32-cong m n (0x500 + 24 * i + 16) (λ a lo hi. same a (omega arith)),
          load32-cong m n (0x500 + 24 * i + 20) (λ a lo hi. same a (omega arith)),
        )
        refl

  pub memmap_at-IsMap :
      (rs : List BiosMemoryRegion)
      → 0x500 + 24 * (length rs + 1) ≤ 0x1000
      → IsMap (memmap_at m) 0 rs
      → IsMap (memmap_at n) 0 rs
  memmap_at-IsMap rs near = IsMap-cong (λ j lo hi. memmap_at-cong j (omega arith))
