-- ===== src/Elf/Text.antt =====
-- The text that map_kernel of bootloader/cboot/src/main.c prints.
use learning_osdev.Base.{ℕ, arith, List, [], ◌∷◌, ◌++◌, codes, u16, u64}
use learning_osdev.Print.Hex.{hex_text}
use learning_osdev.Print.Printer.{
  Prints, Prints-then, Prints-char, Prints-say, Prints-putx16, Prints-putx64,
}
use learning_osdev.Elf.{ProgramHeader, print_title, print_load}

pub title : List ℕ
title =
    codes "Program Headers:\n"
    ++ (codes "  Type           Offset             VirtAddr           PhysAddr\n"
        ++ codes "                 FileSiz            MemSiz              Flags  Align\n")

pub load_text : ProgramHeader → List ℕ
load_text h =
    codes "  LOAD           0x"
    ++ (hex_text 16 (u64 h.offset)
        ++ (codes " 0x"
            ++ (hex_text 16 (u64 h.vaddr)
                ++ (codes " 0x"
                    ++ (hex_text 16 (u64 h.paddr)
                        ++ (codes "\n                 0x"
                            ++ (hex_text 16 (u64 h.filesz)
                                ++ (codes " 0x"
                                    ++ (hex_text 16 (u64 h.memsz)
                                        ++ (codes "         0x"
                                            ++ (hex_text 4 (u16 (u16 h.align))
                                                ++ b'\n' ∷ [])))))))))))

pub print_title-Prints : Prints print_title title
unfolding print_title title
print_title-Prints = Prints-then (Prints-say "Program Headers:\n" (ground arith)) (
    Prints-then
      (Prints-say "  Type           Offset             VirtAddr           PhysAddr\n"
        (ground arith))
      (Prints-say "                 FileSiz            MemSiz              Flags  Align\n"
        (ground arith)))

pub print_load-Prints : (h : ProgramHeader) → Prints (print_load h) (load_text h)
unfolding print_load load_text
print_load-Prints h = Prints-then (Prints-say "  LOAD           0x" (ground arith)) (
    Prints-then (Prints-putx64 h.offset) (
      Prints-then (Prints-say " 0x" (ground arith)) (
        Prints-then (Prints-putx64 h.vaddr) (
          Prints-then (Prints-say " 0x" (ground arith)) (
            Prints-then (Prints-putx64 h.paddr) (
              Prints-then (Prints-say "\n                 0x" (ground arith)) (
                Prints-then (Prints-putx64 h.filesz) (
                  Prints-then (Prints-say " 0x" (ground arith)) (
                    Prints-then (Prints-putx64 h.memsz) (
                      Prints-then (Prints-say "         0x" (ground arith))
                        (Prints-then (Prints-putx16 (u16 h.align)) (Prints-char b'\n'))))))))))))
