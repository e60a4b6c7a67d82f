-- ===== src/Boot/Loaded.antt =====
-- The memory after the loads of cboot_main of bootloader/cboot/src/main.c: the space for the kernel
-- is cleared, and the file is read into it.
use learning_osdev.Base.{
  codes, ◌++◌, ℕ, ◌+◌, ◌-◌, ◌*◌, ◌/◌, ◌%◌, ◌^◌, ◌≤◌, ◌<◌, ◌≡◌, ◌∙◌, refl, arith, ltb, leb, ◌&&◌,
  ◌⊎◌, inl, inr, Bool-cases, true, false, if◌then◌else◌, some, none, List, ap, length,
}
use mathlib.Core.Path.{fun_ext}
use learning_osdev.Mem.{Memory, memset}
use learning_osdev.Mem.Words.{IsBytes}
use learning_osdev.Mem.Set.{IsMemset, memset_lem}
use learning_osdev.Str.{from}
use learning_osdev.Str.Text.{IsText}
use learning_osdev.Paging.{Paging}
use learning_osdev.Ustar.{Disk}
use learning_osdev.Ustar.Archive.{Entry, IsArchive, IsSmall, find_contents}
use learning_osdev.Ustar.Load.{contents, loaded, ustar_load_file_lem}
use learning_osdev.Boot.Steps.{told}
use learning_osdev.Boot.{kernel_path, kernel_space, code_space, put_buffer, load_file}

-- The space is cleared.
unfoldable pub cleared_memory : ℕ → Memory → Memory
cleared_memory exe m a = if leb exe a && ltb a (exe + kernel_space) then 0 else m a

pub memset-cleared :
    (exe : ℕ) (m : Memory)
    → exe + kernel_space + 8 < 2 ^ 64
    → memset exe 0 kernel_space m ≡ some (cleared_memory exe m)
unfolding cleared_memory
memset-cleared exe m fits =
    let c = memset_lem exe 0 kernel_space m (omega arith) fits in
    c.returns ∙ ap (λ (n : Memory). some n) (fun_ext λ a. byte c a)
  where
    byte :
        (c : IsMemset exe 0 kernel_space m (memset exe 0 kernel_space m)) (a : ℕ)
        → c.out a ≡ (if leb exe a && ltb a (exe + kernel_space) then 0 else m a)
    byte c a = elim (Bool-cases (leb exe a && ltb a (exe + kernel_space))) [
      | inl inside ↦ rw inside (ground (arith, c.inside a))
      | inr outside ↦ rw outside (c.outside a (ground arith))
    ]

-- The file of `size` bytes, whose sectors begin at `first`, is read into the cleared space: as many
-- of its sectors as an 8-bit count can say.
unfoldable pub kernel_memory : Disk → ℕ → ℕ → ℕ → Memory → Memory
kernel_memory disk first size exe m a =
    let kaddr = exe + code_space in
    if leb kaddr a && ltb a (kaddr + 512 * ((size + 511) / 512 % 2 ^ 8))
    then contents disk first (a - kaddr)
    else cleared_memory exe m a

put_buffer-loaded :
    (disk : Disk) (first size exe : ℕ) (m : Memory)
    → put_buffer
        (exe + code_space)
        (loaded disk first size (from (exe + code_space) (cleared_memory exe m)))
        (cleared_memory exe m)
      ≡ kernel_memory disk first size exe m
unfolding put_buffer kernel_memory
put_buffer-loaded disk first size exe m = fun_ext λ a.
    elim (Bool-cases (ltb a (exe + code_space))) [
      | inl low ↦
          let before : leb (exe + code_space) a ≡ false = ground arith in rw (low, before) refl
      | inr high ↦
          let at : leb (exe + code_space) a ≡ true = ground arith in
          elim (Bool-cases (ltb (a - (exe + code_space)) (512 * ((size + 511) / 512 % 2 ^ 8)))) [
            | inl inside ↦
                let lt : ltb a (exe + code_space + 512 * ((size + 511) / 512 % 2 ^ 8)) ≡ true =
                  ground arith in
                rw (high, at, inside, lt) refl
            | inr behind ↦
                let ge : ltb a (exe + code_space + 512 * ((size + 511) / 512 % 2 ^ 8)) ≡ false =
                  ground arith in
                let e : exe + code_space + (a - (exe + code_space)) ≡ a = ground arith in
                rw (high, at, behind, ge) (ap (cleared_memory exe m) e)
          ]
    ]

put_buffer-from : (p : ℕ) (m : Memory) → put_buffer p (from p m) m ≡ m
unfolding put_buffer
put_buffer-from p m = fun_ext λ a. elim (Bool-cases (ltb a p)) [
  | inl low ↦ rw low refl
  | inr high ↦ let e : p + (a - p) ≡ a = ground arith in rw high (ap m e)
]

-- The state after the file is read.
abbrev pub loaded_state : Disk → ℕ → ℕ → ℕ → Paging → Paging
loaded_state disk first size exe s =
    told (codes "Loading kernel\n" ++ codes "Loaded Kernel\n")
      (record s { mem = kernel_memory disk first size exe s.mem })

-- In the space the memory before does not matter.
pub kernel_memory-inside :
    (disk : Disk) (first size exe : ℕ) (m n : Memory) (a : ℕ)
    → exe ≤ a
    → a < exe + kernel_space
    → kernel_memory disk first size exe m a ≡ kernel_memory disk first size exe n a
unfolding kernel_memory cleared_memory
kernel_memory-inside disk first size exe m n a lo hi =
    let inside : (leb exe a && ltb a (exe + kernel_space)) ≡ true = ground arith in rw inside refl

pub kernel_memory-IsBytes :
    (disk : Disk) (first size exe : ℕ) (m : Memory)
    → ((n i : ℕ) → first ≤ n → disk n i < 2 ^ 8)
    → IsBytes m
    → IsBytes (kernel_memory disk first size exe m)
unfolding kernel_memory cleared_memory
kernel_memory-IsBytes disk first size exe m small bytes a = ground (
  arith,
  small (first + (a - (exe + code_space)) / 512) ((a - (exe + code_space)) % 512) (omega arith),
  bytes a,
)

-- Outside of the space nothing changes.
pub kernel_memory-outside :
    (disk : Disk) (first size exe : ℕ) (m : Memory) (a : ℕ)
    → (a < exe) ⊎ (exe + kernel_space ≤ a)
    → kernel_memory disk first size exe m a ≡ m a
unfolding kernel_memory cleared_memory
kernel_memory-outside disk first size exe m a out =
    let outside : (leb exe a && ltb a (exe + kernel_space)) ≡ false = ground arith in
    let no_file : (leb (exe + code_space) a
          && ltb a (exe + code_space + 512 * ((size + 511) / 512 % 2 ^ 8)))
        ≡ false =
      ground arith in
    rw (outside, no_file) refl

module _ (disk : Disk) (lba fuel : ℕ) (es : List Entry) (a : IsArchive disk lba 0 es)
    (small : IsSmall es) (enough : length es < fuel) (is_path : IsText kernel_path) where
  pub load_file-found :
      (exe : ℕ) (s : Paging) (m : Memory) (seeker size : ℕ)
      → s.mem ≡ cleared_memory exe m
      → find_contents kernel_path 0 es ≡ some (seeker, size)
      → load_file fuel disk lba (exe + code_space) s
        ≡ some (size, record s { mem = kernel_memory disk (seeker + lba) size exe m })
  unfolding load_file
  load_file-found exe s m seeker size cleared found =
      rw
        (
          load_file,
          ustar_load_file_lem disk lba kernel_path is_path (from (exe + code_space) s.mem) fuel es a
              small enough,
          found,
          cleared,
        )
        (ap (λ (n : Memory). some (size, record s { mem = n }))
          (put_buffer-loaded disk (seeker + lba) size exe m))

  pub load_file-missing :
      (kaddr : ℕ) (s : Paging)
      → find_contents kernel_path 0 es ≡ none
      → load_file fuel disk lba kaddr s ≡ some (0, s)
  unfolding load_file
  load_file-missing kaddr s missing =
      rw
        (
          load_file,
          ustar_load_file_lem disk lba kernel_path is_path (from kaddr s.mem) fuel es a small
              enough,
          missing,
        )
        (ap (λ (n : Memory). some (0, record s { mem = n })) (put_buffer-from kaddr s.mem))
