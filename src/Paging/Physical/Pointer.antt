-- ===== src/Paging/Physical/Pointer.antt =====
-- physical_to_virtual_pointer of bootloader/cboot/src/paging.c.
use learning_osdev.Base.{ℕ, ◌+◌, ◌^◌, ◌<◌, ◌≡◌, bit_or-sum}
use learning_osdev.Paging.{physical_to_virtual_address, physical_to_virtual_pointer}
use learning_osdev.Paging.Physical.{physical_base}

pub physical_to_virtual_pointer-sum :
    (ptr : ℕ) → ptr < 2 ^ 47 → physical_to_virtual_pointer ptr ≡ physical_base + ptr
unfolding physical_to_virtual_pointer physical_to_virtual_address
physical_to_virtual_pointer-sum ptr lt = bit_or-sum 47 131071 ptr lt
