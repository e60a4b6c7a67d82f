-- ===== src/Paging.antt =====
-- bootloader/cboot/include/paging.h and bootloader/cboot/src/paging.c: the page tables, which lie
-- in the memory of mem.c at their physical addresses. The bit fields are written as arithmetic on
-- `raw`, from the lowest bit up.
mod Descend
pub mod Entries
mod Extend
pub mod Invariant
pub mod Leaf
pub mod Link
pub mod Listing
pub mod Map2mb
pub mod Map4kb
pub mod Mapped
pub mod Outside
pub mod Physical
pub mod Printing
mod SamePage
mod Tests
pub mod Walk
use learning_osdev.Base.{
  ℕ, ◌+◌, ◌-◌, ◌*◌, ◌/◌, ◌%◌, ◌^◌, bit_or, Bool, Option, none, some, ◌==◌, if◌then◌else◌, u64, zero,
  suc,
}
use learning_osdev.Mem.{Memory, load64, store64, memset}
use learning_osdev.Print.{Console}
use learning_osdev.Print.Printer.{Printer}

-- The fields of PageTableEntry.
unfoldable pub present : ℕ → Bool
present raw = raw % 2 == 1

unfoldable pub huge_page : ℕ → Bool
huge_page raw = raw / 2 ^ 7 % 2 == 1

unfoldable pub set_present : ℕ → ℕ
set_present raw = raw - raw % 2 + 1

unfoldable pub set_writable : ℕ → ℕ
set_writable raw = raw / 2 ^ 2 * 2 ^ 2 + 2 ^ 1 + raw % 2 ^ 1

unfoldable pub set_huge_page : ℕ → ℕ
set_huge_page raw = raw / 2 ^ 8 * 2 ^ 8 + 2 ^ 7 + raw % 2 ^ 7

-- SET_PTE_ADDRESS: the field `addr` has bits 11 to 52.
unfoldable pub set_pte_address : ℕ → ℕ → ℕ
set_pte_address raw n = raw / 2 ^ 53 * 2 ^ 53 + n / 2 ^ 11 % 2 ^ 42 * 2 ^ 11 + raw % 2 ^ 11

-- GET_PTE_ADDRESS
unfoldable pub get_pte_address : ℕ → ℕ
get_pte_address raw = raw / 2 ^ 11 % 2 ^ 42 * 2 ^ 11

-- The fields of VirtAddr: 12 bits of offset, then the indices of the four levels.
unfoldable pub l1_index : ℕ → ℕ
l1_index raw = raw / 2 ^ 12 % 2 ^ 9

unfoldable pub l2_index : ℕ → ℕ
l2_index raw = raw / 2 ^ 21 % 2 ^ 9

unfoldable pub l3_index : ℕ → ℕ
l3_index raw = raw / 2 ^ 30 % 2 ^ 9

unfoldable pub l4_index : ℕ → ℕ
l4_index raw = raw / 2 ^ 39 % 2 ^ 9

abbrev pub num_page_table_entries : ℕ
num_page_table_entries = 512

abbrev pub pagetable_size : ℕ
pagetable_size = 8 * num_page_table_entries

-- The table of level 4, set up before this code runs.
abbrev pub p4table : ℕ
p4table = 0x1000

-- The memory, the static `it` of new_page_table, the register cr3, and where the code prints.
pub record Paging : Type 0 where
  pub mem : Memory
  pub it : ℕ
  pub cr3 : ℕ
  pub console : Console

-- `none` is a loop of a callee that does not end.
abbrev pub Cmd : Type 0 → Type 0
Cmd A = Paging → Option (A × Paging)

abbrev pub pure : {A : Type 0} → A → Cmd A
pure a s = some (a, s)

infixl 5 ◌>>=◌ ◌>>◌
abbrev pub ◌>>=◌ : {A B : Type 0} → Cmd A → (A → Cmd B) → Cmd B
◌>>=◌ c k s = elim (c s) [ none ↦ none | some (a, t) ↦ k a t ]

abbrev pub ◌>>◌ : {B : Type 0} → Cmd (Unit {0}) → Cmd B → Cmd B
c >> k = c >>= λ _. k

-- A call that prints.
abbrev pub prints : Printer → Cmd (Unit {0})
prints p s = elim (p s.console) [ none ↦ none | some k ↦ some (tt, record s { console = k }) ]

-- `table[i].raw`, and an assignment to it.
unfoldable pub entry : Memory → ℕ → ℕ → ℕ
entry m table i = load64 m (table + 8 * i)

unfoldable pub set_entry : ℕ → ℕ → ℕ → Cmd (Unit {0})
set_entry table i raw s = some (tt, record s { mem = store64 s.mem (table + 8 * i) raw })

unfoldable pub get_entry : ℕ → ℕ → Cmd ℕ
get_entry table i s = some (entry s.mem table i, s)

-- A call of memset on this memory, which is by address: that the address is mapped is the caller's
-- to see.
unfoldable pub clear : ℕ → ℕ → Cmd (Unit {0})
clear dst size s = elim (memset dst 0 size s.mem) [
  | none ↦ none
  | some m ↦ some (tt, record s { mem = m })
]

unfoldable pub load_newpagetable : ℕ → Cmd (Unit {0})
load_newpagetable pt s = some (tt, record s { cr3 = pt })

unfoldable pub new_page_table : Cmd ℕ
unfolding clear
new_page_table s =
    (do clear s.it pagetable_size; λ t. some (s.it, record t { it = u64 (t.it + pagetable_size) }))
      s

-- The block that map_4kb_page and map_2mb_page repeat for each level above the last: the table
-- that entry `i` of `table` leads to, which is allocated if the entry is not present. Each
-- assignment to a field is a read and a write of the entry.
unfoldable pub next_table : ℕ → ℕ → Cmd ℕ
unfolding get_entry set_entry
next_table table i = do
  e ← get_entry table i
  if present e then pure (get_pte_address e) else do
    new ← new_page_table
    e1 ← get_entry table i
    set_entry table i (set_pte_address e1 new)
    e2 ← get_entry table i
    set_entry table i (set_present e2)
    e3 ← get_entry table i
    set_entry table i (set_writable e3)
    pure new

unfoldable pub map_4kb_page : ℕ → ℕ → Cmd (Unit {0})
unfolding get_entry set_entry
map_4kb_page addr physical_address = do
  p3table ← next_table p4table (l4_index addr)
  p2table ← next_table p3table (l3_index addr)
  p1table ← next_table p2table (l2_index addr)
  set_entry p1table (l1_index addr) 0
  e1 ← get_entry p1table (l1_index addr)
  set_entry p1table (l1_index addr) (set_pte_address e1 physical_address)
  e2 ← get_entry p1table (l1_index addr)
  set_entry p1table (l1_index addr) (set_present e2)
  e3 ← get_entry p1table (l1_index addr)
  set_entry p1table (l1_index addr) (set_writable e3)

unfoldable pub map_2mb_page : ℕ → ℕ → Cmd (Unit {0})
unfolding get_entry set_entry
map_2mb_page addr physical_address = do
  p3table ← next_table p4table (l4_index addr)
  p2table ← next_table p3table (l3_index addr)
  set_entry p2table (l2_index addr) 0
  e1 ← get_entry p2table (l2_index addr)
  set_entry p2table (l2_index addr) (set_pte_address e1 physical_address)
  e2 ← get_entry p2table (l2_index addr)
  set_entry p2table (l2_index addr) (set_present e2)
  e3 ← get_entry p2table (l2_index addr)
  set_entry p2table (l2_index addr) (set_writable e3)
  e4 ← get_entry p2table (l2_index addr)
  set_entry p2table (l2_index addr) (set_huge_page e4)

pub physical_to_virtual_address : ℕ → ℕ
physical_to_virtual_address addr = bit_or addr 0xFFFF800000000000

pub physical_to_virtual_pointer : ℕ → ℕ
physical_to_virtual_pointer ptr = physical_to_virtual_address ptr
