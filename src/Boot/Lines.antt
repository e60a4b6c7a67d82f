-- ===== src/Boot/Lines.antt =====
-- What cboot_main of bootloader/cboot/src/main.c prints of the parts that it has called.
use learning_osdev.Base.{
  ℕ, ◌==◌, ◌&&◌, not, if◌then◌else◌, codes, arith, List, [], ◌∷◌, ◌++◌, ◌<◌, ◌^◌,
}
use learning_osdev.Str.{Bytes}
use learning_osdev.Print.{putd}
use learning_osdev.Print.Decimal.{dec_text}
use learning_osdev.Print.Printer.{
  Printer, ◌>>◌, quiet, char, say, Prints, Prints-then, Prints-quiet, Prints-char, Prints-say,
  Prints-putd, Prints-if,
}
use learning_osdev.Gpt.{starting_lba, ending_lba}

unfoldable pub print_hello : Printer
print_hello = do say "Hello, World from the bootloader\n"; say "Bios Physical Memory Maps\n"

unfoldable pub print_found : Bytes → Printer
print_found gpte =
    if not (starting_lba gpte == 0) && not (ending_lba gpte == 0)
    then say "Partition Found, Time to load the operating system\n"
    else quiet

-- `isfound` is not 0 where there is no file.
unfoldable pub print_size : ℕ → ℕ → Printer
print_size isfound kernel_filesize =
    if isfound == 0
    then (do say "Kernel Size On Disk = "; putd kernel_filesize; char b'\n')
    else say "Unable To File the kernel executable file\n"

abbrev pub hello_text : List ℕ
hello_text = codes "Hello, World from the bootloader\n" ++ codes "Bios Physical Memory Maps\n"

unfoldable pub found_text : Bytes → List ℕ
found_text gpte =
    if not (starting_lba gpte == 0) && not (ending_lba gpte == 0)
    then codes "Partition Found, Time to load the operating system\n"
    else []

unfoldable pub size_text : ℕ → ℕ → List ℕ
size_text isfound kernel_filesize =
    if isfound == 0
    then codes "Kernel Size On Disk = " ++ (dec_text kernel_filesize ++ b'\n' ∷ [])
    else codes "Unable To File the kernel executable file\n"

pub print_hello-Prints : Prints print_hello hello_text
unfolding print_hello
print_hello-Prints =
    Prints-then (Prints-say "Hello, World from the bootloader\n" (ground arith))
      (Prints-say "Bios Physical Memory Maps\n" (ground arith))

pub print_found-Prints : (gpte : Bytes) → Prints (print_found gpte) (found_text gpte)
unfolding print_found found_text
print_found-Prints gpte =
    Prints-if (not (starting_lba gpte == 0) && not (ending_lba gpte == 0))
      (Prints-say "Partition Found, Time to load the operating system\n" (ground arith))
      Prints-quiet

pub print_size-Prints :
    (isfound kernel_filesize : ℕ)
    → kernel_filesize < 2 ^ 64
    → Prints (print_size isfound kernel_filesize) (size_text isfound kernel_filesize)
unfolding print_size size_text
print_size-Prints isfound kernel_filesize lt =
    Prints-if (isfound == 0)
      (Prints-then (Prints-say "Kernel Size On Disk = " (ground arith))
        (Prints-then (Prints-putd kernel_filesize lt) (Prints-char b'\n')))
      (Prints-say "Unable To File the kernel executable file\n" (ground arith))
