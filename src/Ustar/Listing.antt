-- ===== src/Ustar/Listing.antt =====
-- ustar_list_files of bootloader/cboot/src/ustar.c, and the text that it prints for an archive.
use learning_osdev.Base.{
  ℕ, zero, suc, ◌+◌, ◌/◌, ◌^◌, ◌<◌, ◌≡◌, arith, List, [], ◌∷◌, ◌++◌, length, codes, ◌==◌, ◌||◌,
  if◌then◌else◌, none, some, u32, u64, ◌∙◌, ap, inl, inr,
}
use learning_osdev.Str.{Bytes}
use learning_osdev.Print.{Console, puts, putd}
use learning_osdev.Print.Text.{shown, puts_lem}
use learning_osdev.Print.Decimal.{dec_text}
use learning_osdev.Print.Printer.{
  Printer, ◌>>◌, quiet, char, say, Prints, Prints-then, Prints-quiet, Prints-char, Prints-say,
  Prints-putd,
}
use learning_osdev.Ustar.{
  Disk, sectors_read, mdata_filename, mdata_filesize, mdata_type, oct2bin, signature_differs,
  next_seeker,
}
use learning_osdev.Ustar.Archive.{
  Kind, file, directory, Entry, HasType, IsHeader, IsArchive, end, entry, blocks, IsSmall,
}
use learning_osdev.Ustar.Header.{sector_read, IsHeader-cong, signed-zero, header-size, header-next}
use learning_osdev.Ustar.Find.{ends}

-- What the `switch` prints.
unfoldable pub list_type : ℕ → ℕ → Printer
list_type type filesize =
    if type == 0 || type == b'0'
    then (do say " :file size="; putd filesize; char b'\n')
    else if type == b'5'
    then say " :directory\n"
    else quiet

module _ (disk : Disk) (starting_lba : ℕ) where
  -- The name is read from the buffer of 512 bytes.
  unfoldable pub ustar_list_files_loop : ℕ → ℕ → Printer
  ustar_list_files_loop zero seeker = λ k. none
  ustar_list_files_loop (suc f) seeker =
      let buf = sectors_read disk (u64 (seeker + starting_lba)) in
      let filesize = u32 (oct2bin (mdata_filesize buf) 11) in
      let num_sectors = u32 (filesize + 511) / 512 in
      let rest = ustar_list_files_loop f (next_seeker (mdata_type buf) num_sectors seeker) in
      if signature_differs buf == 0
      then (do char b'/'; puts 512 (mdata_filename buf); list_type (mdata_type buf) filesize; rest)
      else quiet

  unfoldable pub ustar_list_files : ℕ → Printer
  ustar_list_files fuel = ustar_list_files_loop fuel 0

-- The text for an entry: a slash, the name without its prefix, and the kind, with the size of a
-- file.
unfoldable pub kind_text : Kind → ℕ → List ℕ
kind_text file size = codes " :file size=" ++ (dec_text size ++ (b'\n' ∷ []))
kind_text directory size = codes " :directory\n"

unfoldable pub listing_text : List Entry → List ℕ
listing_text [] = []
listing_text (e ∷ es) = (b'/' ∷ []) ++ (e.name ++ (kind_text e.kind e.size ++ listing_text es))

-- Names that end in a NUL byte within their field.
abbrev pub IsTerminated : List Entry → Type 0
IsTerminated [] = Unit {0}
IsTerminated (e ∷ es) = (length e.name < 100) × IsTerminated es

list_type-Prints :
    (kind : Kind) (type size : ℕ)
    → HasType kind type
    → size < 2 ^ 64
    → Prints (list_type type size) (kind_text kind size)
unfolding list_type kind_text
list_type-Prints file type size (inl z) fits = rw z (
    Prints-then (Prints-say " :file size=" (ground arith))
      (Prints-then (Prints-putd size fits) (Prints-char b'\n')))
list_type-Prints file type size (inr z) fits = rw z (
    Prints-then (Prints-say " :file size=" (ground arith))
      (Prints-then (Prints-putd size fits) (Prints-char b'\n')))
list_type-Prints directory type size z fits = rw z (Prints-say " :directory\n" (ground arith))

puts_filename-Prints :
    (buf : Bytes) (e : Entry)
    → IsHeader buf e
    → length e.name < 100
    → Prints (puts 512 (mdata_filename buf)) e.name
puts_filename-Prints buf e h short = record {
  run = λ k.
      puts_lem e.name (mdata_filename buf) 512 k h.name_field.is_text
        (λ j le. ap (mdata_filename buf) (omega arith) ∙ h.name_field.holds j (omega arith))
        (omega arith);
}

module _ (disk : Disk) (lba : ℕ) where
  list_files_loop-Prints :
      (f seeker : ℕ) (es : List Entry)
      → IsArchive disk lba seeker es
      → IsSmall es
      → IsTerminated es
      → length es < f
      → Prints (ustar_list_files_loop disk lba f seeker) (listing_text es)
  unfolding ustar_list_files_loop listing_text
  list_files_loop-Prints zero seeker es a small names fuel = absurd (omega arith)
  list_files_loop-Prints (suc f) seeker [] (end near differs) small names fuel =
      rw (ends disk lba seeker near differs) Prints-quiet
  list_files_loop-Prints (suc f) seeker (e ∷ es) (entry near header rest) (fits, small)
        (short, names) fuel =
      let buf = sectors_read disk (u64 (seeker + lba)) in
      let h = IsHeader-cong (λ i lt. sector_read disk lba seeker i near lt) header in
      let next =
        list_files_loop-Prints f (seeker + blocks e.kind e.size) es rest small names
          (omega arith) in
      let e32 : u32 e.size ≡ e.size = omega arith in
      let num : u32 (e.size + 511) / 512 ≡ u32 (u64 (e.size + 511) / 512) = omega arith in
      rw
        (
          signed-zero buf h.signed,
          header-size buf e h,
          e32,
          num,
          header-next buf e h seeker (omega arith),
        )
        (Prints-then (Prints-char b'/') (
          Prints-then (puts_filename-Prints buf e h short) (
            Prints-then (list_type-Prints e.kind (mdata_type buf) e.size h.typed (omega arith))
              next)))

  -- On an archive whose entries are files and directories of less than 4 GiB with names shorter
  -- than 100 bytes, ustar_list_files ends within one round more than the archive has entries, and
  -- prints a line for each: a slash, the name without its prefix, and the size of a file.
  pub ustar_list_files_lem :
      (fuel : ℕ) (es : List Entry) (k : Console)
      → IsArchive disk lba 0 es
      → IsSmall es
      → IsTerminated es
      → length es < fuel
      → ustar_list_files disk lba fuel k ≡ some (shown (listing_text es) k)
  unfolding ustar_list_files
  ustar_list_files_lem fuel es k a small names enough =
      (list_files_loop-Prints fuel 0 es a small names enough).run k
