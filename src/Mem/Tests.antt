-- ===== src/Mem/Tests.antt =====
-- The functions of mem.c at concrete arguments.
use learning_osdev.Base.{ℕ, ◌%◌, ◌≡◌, refl, arith, some, none, ◌*◌, ◌+◌, Option, List, [], ◌∷◌}
use learning_osdev.Mem.{Memory, memset, memcpy, store8, store64}
use learning_osdev.Mem.Words.{IsBytes}
use learning_osdev.Mem.Set.{IsMemset, memset_lem}
use learning_osdev.Mem.Copy.{IsMemcpy, memcpy_lem}

-- A memory with a pattern in it.
abbrev pattern_mem : Memory
pattern_mem a = (a * 7 + 1) % 256

pattern_mem-IsBytes : IsBytes pattern_mem
pattern_mem-IsBytes a = omega arith

memset_lem_example : IsMemset 0x1003 0xAB 29 pattern_mem (memset 0x1003 0xAB 29 pattern_mem)
memset_lem_example = memset_lem 0x1003 0xAB 29 pattern_mem (omega arith) (omega arith)

memcpy_lem_example : IsMemcpy 0x1005 0x2002 37 pattern_mem (memcpy 0x1005 0x2002 37 pattern_mem)
memcpy_lem_example =
    memcpy_lem 0x1005 0x2002 37 pattern_mem (omega arith) (omega arith) (omega arith)
      pattern_mem-IsBytes

-- Bytes at addresses of a memory that a call leaves.
abbrev bytes_at : Option Memory → List ℕ → List ℕ
bytes_at none addresses = []
bytes_at (some m) [] = []
bytes_at (some m) (a ∷ rest) = m a ∷ bytes_at (some m) rest

memset_words_are_sparse :
    bytes_at (memset 0x1003 0xAB 29 pattern_mem) (0x1002 ∷ 0x1003 ∷ 0x1008 ∷ 0x1009 ∷ 0x101F ∷ [])
    ≡ 15 ∷ 0xAB ∷ 0xAB ∷ 0 ∷ 0xAB ∷ []
unfolding memset store8 store64
memset_words_are_sparse = refl
