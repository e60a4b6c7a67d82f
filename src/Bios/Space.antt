-- ===== src/Bios/Space.antt =====
-- allocate_space_for_kernel as a function of the list of the regions.
use learning_osdev.Base.{
  ℕ, zero, suc, ◌+◌, ◌<◌, ◌≡◌, refl, arith, List, [], ◌∷◌, length, ◌==◌, if◌then◌else◌, ltb, leb,
  ◌&&◌, Option, none, some, true, false, Bool, Bool-cases, ◌⊎◌, inl, inr,
}
use learning_osdev.Paging.{physical_to_virtual_pointer}
use learning_osdev.Bios.{BiosMemoryRegion, Memmap, allocate_loop, allocate_space_for_kernel}
use learning_osdev.Bios.Regions.{IsMap, end, region}

-- A region that can hold the kernel: free, from 1 MiB on, and large enough.
abbrev pub suits : ℕ → BiosMemoryRegion → Bool
suits mem_size r = leb 0x100000 r.base_address && leb mem_size r.map_size && (r.type == 1)

-- The first region that suits.
abbrev pub first_suitable : ℕ → List BiosMemoryRegion → Option BiosMemoryRegion
first_suitable mem_size [] = none
first_suitable mem_size (r ∷ rs) = if suits mem_size r then some r else first_suitable mem_size rs

-- The pointer to the region in the mapping of physical memory, or 0.
abbrev pub pointer_to : Option BiosMemoryRegion → ℕ
pointer_to none = 0
pointer_to (some r) = physical_to_virtual_pointer r.base_address

first_suitable-cons :
    (mem_size : ℕ) (r : BiosMemoryRegion) (rs : List BiosMemoryRegion)
    → (if ltb r.base_address 0x100000
        then some (pointer_to (first_suitable mem_size rs))
        else if ltb r.map_size mem_size
        then some (pointer_to (first_suitable mem_size rs))
        else if r.type == 1
        then some (physical_to_virtual_pointer r.base_address)
        else some (pointer_to (first_suitable mem_size rs)))
      ≡ some (pointer_to (first_suitable mem_size (r ∷ rs)))
first_suitable-cons mem_size r rs = elim (Bool-cases (suits mem_size r)) [
  | inl fit ↦
      let high : ltb r.base_address 0x100000 ≡ false = ground arith in
      let large : ltb r.map_size mem_size ≡ false = ground arith in
      let free : (r.type == 1) ≡ true = ground arith in rw (fit, high, large, free) refl
  | inr unfit ↦
      rw unfit
        (same (ltb r.base_address 0x100000) (ltb r.map_size mem_size) (r.type == 1) (ground arith))
]
  where
    same :
        (a b c : Bool)
        → (a ≡ true) ⊎ (b ≡ true) ⊎ (c ≡ false)
        → (if a
            then some (pointer_to (first_suitable mem_size rs))
            else if b
            then some (pointer_to (first_suitable mem_size rs))
            else if c
            then some (physical_to_virtual_pointer r.base_address)
            else some (pointer_to (first_suitable mem_size rs)))
          ≡ some (pointer_to (first_suitable mem_size rs))
    same true b c h = refl
    same false true c h = refl
    same false false true h = absurd (ground arith)
    same false false false h = refl

allocate_loop-first :
    (f i : ℕ) (memmap : Memmap) (rs : List BiosMemoryRegion) (mem_size : ℕ)
    → IsMap memmap i rs
    → length rs < f
    → allocate_loop f i memmap mem_size ≡ some (pointer_to (first_suitable mem_size rs))
unfolding allocate_loop
allocate_loop-first zero i memmap rs mem_size m lt = absurd (omega arith)
allocate_loop-first (suc f) i memmap [] mem_size (end z) lt = rw z refl
allocate_loop-first (suc f) i memmap (r ∷ rs) mem_size (region nz m) lt =
    let more : ((memmap i).type == 0) ≡ false = ground arith in
    let next = allocate_loop-first f (i + 1) memmap rs mem_size m (omega arith) in
    rw (more, next) (first_suitable-cons mem_size (memmap i) rs)

-- On a map that ends, allocate_space_for_kernel ends within a round more than there are regions. It
-- returns the pointer to the first region that is free, begins at 1 MiB or above and has the size,
-- or 0 if there is none.
pub allocate_space_for_kernel_lem :
    (memmap : Memmap) (rs : List BiosMemoryRegion) (fuel mem_size : ℕ)
    → IsMap memmap 0 rs
    → length rs < fuel
    → allocate_space_for_kernel fuel memmap mem_size
      ≡ some (pointer_to (first_suitable mem_size rs))
unfolding allocate_space_for_kernel
allocate_space_for_kernel_lem memmap rs fuel mem_size m lt =
    allocate_loop-first fuel 0 memmap rs mem_size m lt
