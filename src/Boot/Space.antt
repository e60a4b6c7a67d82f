-- ===== src/Boot/Space.antt =====
-- The space for the kernel that cboot_main of bootloader/cboot/src/main.c takes lies in the map of
-- physical memory.
use learning_osdev.Base.{ℕ, ◌+◌, ◌*◌, ◌^◌, ◌≤◌, ◌<◌, ◌≡◌, ◌∙◌, ap, arith, some, List, Option}
use learning_osdev.Str.{Bytes}
use learning_osdev.Paging.{Paging}
use learning_osdev.Paging.Walk.{translate, page}
use learning_osdev.Paging.Invariant.{Owner}
use learning_osdev.Paging.Physical.{physical_base}
use learning_osdev.Paging.Physical.Map.{gigabytes}
use learning_osdev.Paging.Physical.Pointer.{physical_to_virtual_pointer-sum}
use learning_osdev.Bios.{BiosMemoryRegion, allocate_space_for_kernel}
use learning_osdev.Bios.Regions.{free_bytes}
use learning_osdev.Bios.Space.{first_suitable, allocate_space_for_kernel_lem}
use learning_osdev.Gpt.{starting_lba}
use learning_osdev.Ustar.{Disk}
use learning_osdev.Ustar.Archive.{Entry}
use learning_osdev.Boot.{Outcome, memmap_at, kernel_space, load_kernel, boot}
use learning_osdev.Boot.Prepare.{partition, IsMachine, boot_lem}

-- `result` is what comes of the loads from a state in which the space is chosen at `exe`, and each
-- address of it is translated into its byte from the physical address `paddr` on.
pub record IsMappedSpace (fuel : ℕ) (disk : Disk) (lba exe paddr : ℕ)
    (result : Option (Outcome × Paging)) : Type 0 where
  pub before : Paging
  pub loads : result ≡ load_kernel fuel disk lba before
  pub chosen : allocate_space_for_kernel fuel (memmap_at before.mem) kernel_space ≡ some exe
  pub mapped : (i : ℕ) → i < kernel_space → translate before (exe + i) ≡ page 2 (paddr + i)

-- From a machine as it is left to cboot_main, where the first region that suits the kernel ends
-- within the gigabytes that the free memory of the map fills, cboot_main comes to the loads and
-- chooses the address of that region in the upper half; there each address of the space that is
-- cleared and read into is translated into its byte of the region.
pub boot-IsMappedSpace :
    (fuel : ℕ) (disk : Disk) (stack : Bytes) {own : Owner} (s : Paging) (rs : List BiosMemoryRegion)
    (names : List (List ℕ)) (es : List Entry) (x : IsMachine fuel disk stack own s rs names es)
    (r : BiosMemoryRegion)
    → first_suitable kernel_space rs ≡ some r
    → r.base_address + kernel_space ≤ gigabytes (free_bytes rs) * 2 ^ 30
    → IsMappedSpace fuel disk
        (starting_lba (partition disk stack names))
        (physical_base + r.base_address)
        r.base_address
        (boot fuel disk stack s)
boot-IsMappedSpace fuel disk stack s rs names es x r first within =
    let p = boot_lem fuel disk stack s rs names es x in
    let low : r.base_address < 2 ^ 47 = omega (arith, x.not_too_much) in
    record {
      before = p.after;
      loads = p.runs;
      chosen =
          allocate_space_for_kernel_lem (memmap_at p.after.mem) rs fuel kernel_space p.map
            x.map_enough
          ∙ rw first (ap some (physical_to_virtual_pointer-sum r.base_address low));
      mapped = λ i lt.
          let e : physical_base + r.base_address + i ≡ physical_base + (r.base_address + i) =
            omega arith in
          rw e (p.mapped (r.base_address + i) (omega arith));
    }
