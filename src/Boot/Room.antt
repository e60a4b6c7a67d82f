-- ===== src/Boot/Room.antt =====
-- A region for the kernel on the machine that cboot_main of bootloader/cboot/src/main.c finds.
use learning_osdev.Base.{ℕ, ◌+◌, ◌*◌, ◌^◌, ◌≤◌, ◌<◌, ◌≡◌, ◌∙◌, ap, arith, true, some, List}
use learning_osdev.Str.{Bytes}
use learning_osdev.Paging.{Paging}
use learning_osdev.Paging.Walk.{translate}
use learning_osdev.Paging.Invariant.{Owner}
use learning_osdev.Paging.Physical.Map.{gigabytes}
use learning_osdev.Bios.{BiosMemoryRegion}
use learning_osdev.Bios.Regions.{free_bytes}
use learning_osdev.Bios.Space.{first_suitable}
use learning_osdev.Ustar.{Disk}
use learning_osdev.Ustar.Archive.{Entry}
use learning_osdev.Boot.{kernel_space, is_backed}
use learning_osdev.Boot.Backed.{is_backed-space, first_suitable-high}
use learning_osdev.Boot.Load.{space_in}
use learning_osdev.Boot.Prepare.{IsMachine, boot_lem}

-- The region that is chosen lies within the gigabytes that the free memory of the map fills, which
-- are those that are mapped, and the new page table in the first megabyte.
pub record HasSpace (s : Paging) (rs : List BiosMemoryRegion) (r : BiosMemoryRegion) : Type 0 where
  pub chosen : first_suitable kernel_space rs ≡ some r
  pub within : r.base_address + kernel_space ≤ gigabytes (free_bytes rs) * 2 ^ 30
  pub tables_low : s.it + 4096 ≤ 0x100000

module _ (fuel : ℕ) (disk : Disk) (stack : Bytes) {own : Owner} (s : Paging)
    (rs : List BiosMemoryRegion) (names : List (List ℕ)) (es : List Entry)
    (x : IsMachine fuel disk stack own s rs names es) (r : BiosMemoryRegion)
    (space : HasSpace s rs r) where
  pub space-low : r.base_address < 2 ^ 45
  space-low = omega (arith, space.within, x.not_too_much)

  pub space-is_backed :
      is_backed (space_in r) (boot_lem fuel disk stack s rs names es x).after ≡ true
  space-is_backed =
      let p = boot_lem fuel disk stack s rs names es x in
      let high = first_suitable-high rs r space.chosen in
      is_backed-space p.after (space_in r) r.base_address
        (λ i lt.
          ap (translate p.after) (omega arith)
          ∙ p.mapped (r.base_address + i) (omega (arith, space.within)))
        high (omega (arith, p.it_bound, space.tables_low, high)) (omega (arith, space-low))
