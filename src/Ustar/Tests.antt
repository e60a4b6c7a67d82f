-- ===== src/Ustar/Tests.antt =====
-- The theorems on ustar.c at small archives.
use learning_osdev.Base.{
  ℕ, zero, suc, ◌+◌, ◌%◌, ◌≡◌, refl, arith, List, [], ◌∷◌, ◌==◌, if◌then◌else◌, inr, some, none,
}
use learning_osdev.Str.{text, memcmp, memcmp_loop, strncmp, strncmp_loop, strncpy, strncpy_loop}
use learning_osdev.Str.Text.{IsText}
use learning_osdev.Ustar.{
  Disk, ustar_get_filesize, ustar_load_file, oct2bin, full_filename, signature_differs,
  sectors_read,
}
use learning_osdev.Ustar.Example.{header_of, header_of-octal}
use learning_osdev.Ustar.Octal.{IsOctal, oct2bin_lem}
use learning_osdev.Ustar.Name.{full_filename_lem}
use learning_osdev.Ustar.Archive.{file, Entry, IsHeader, IsArchive, end, entry}
use learning_osdev.Ustar.Find.{ustar_get_filesize_lem}
use learning_osdev.Ustar.Load.{loaded, ustar_load_file_lem}
use learning_osdev.Ustar.Stuck.{IsOther, ustar_stuck}
use learning_osdev.Print.{Console}
use learning_osdev.Print.Text.{shown}
use learning_osdev.Ustar.Listing.{ustar_list_files, listing_text, ustar_list_files_lem}

-- The entry sys/a of 700 bytes.
abbrev small_file : Entry
small_file = record { prefix = []; name = b's' ∷ b'/' ∷ b'a' ∷ []; kind = file; size = 700 }

abbrev small_disk : Disk
small_disk n =
    if n == 4096 then header_of b'0' (b's' ∷ b'/' ∷ b'a' ∷ []) 700 else (λ i. (n + i) % 7)

small-IsHeader : IsHeader (small_disk 4096) small_file
small-IsHeader = record {
  signed = λ j lt. ground arith;
  prefix_field = record {
    holds = λ j lt. unfold text in ground arith;
    fits = omega arith;
    is_text = tt;
  };
  name_field = record { holds = λ j lt. ground arith; fits = omega arith; is_text = ground arith };
  octal = λ i lt. header_of-octal b'0' (b's' ∷ b'/' ∷ b'a' ∷ []) 700 i lt;
  fits = omega arith;
  typed = inr refl;
}

small_archive : IsArchive small_disk 4096 0 (small_file ∷ [])
small_archive =
    unfold text in
    entry {seeker = 0} (omega arith) small-IsHeader
      (end {seeker = 3} (omega arith) (λ h. absurd (ground (arith, h 0 (omega arith)))))

abbrev small_path : List ℕ
small_path = b'/' ∷ b's' ∷ b'/' ∷ b'a' ∷ []

small_path-IsText : IsText small_path
small_path-IsText = ground arith

ustar_get_filesize_lem_example :
    ustar_get_filesize small_disk 4096 (text small_path) 2 5 ≡ some (0, 700)
ustar_get_filesize_lem_example =
    ustar_get_filesize_lem small_disk 4096 small_path small_path-IsText 5 2 (small_file ∷ [])
      small_archive (omega arith)

ustar_load_file_lem_example :
    ustar_load_file small_disk 4096 (text small_path) 2 (λ _. 9)
    ≡ some (700, loaded small_disk 4097 700 (λ _. 9))
ustar_load_file_lem_example =
    ustar_load_file_lem small_disk 4096 small_path small_path-IsText (λ _. 9) 2 (small_file ∷ [])
      small_archive (omega arith, tt) (omega arith)

oct2bin_lem_example : oct2bin (text (b'1' ∷ b'7' ∷ b'5' ∷ [])) 3 ≡ 125
oct2bin_lem_example =
    oct2bin_lem (text (b'1' ∷ b'7' ∷ b'5' ∷ [])) 3 125 (omega arith) digits (omega arith)
  where
    digits : IsOctal (text (b'1' ∷ b'7' ∷ b'5' ∷ [])) 3 125
    digits zero lt = unfold text in refl
    digits (suc zero) lt = unfold text in refl
    digits (suc (suc zero)) lt = unfold text in refl
    digits (suc (suc (suc i))) lt = absurd (omega arith)

full_filename_lem_example : full_filename (small_disk 4096) 3 ≡ text small_path 3
full_filename_lem_example =
    full_filename_lem (small_disk 4096) [] (b's' ∷ b'/' ∷ b'a' ∷ []) small-IsHeader.prefix_field
      small-IsHeader.name_field 3

-- A link at the start of the partition.
abbrev link_disk : Disk
link_disk n = header_of b'2' (b'l' ∷ []) 0

link-IsOther : IsOther link_disk 4096 (text small_path) 0
link-IsOther =
    unfold sectors_read signature_differs memcmp memcmp_loop strncmp strncmp_loop full_filename
      strncpy strncpy_loop text in
    record {
      signed = refl;
      elsewhere = λ z. ground arith;
      not_old_file = λ z. ground arith;
      not_file = λ z. ground arith;
      not_directory = λ z. ground arith;
    }

ustar_stuck_example :
    (ustar_get_filesize link_disk 4096 (text small_path) 1000 5 ≡ none)
    × (ustar_load_file link_disk 4096 (text small_path) 1000 (λ _. 9) ≡ none)
ustar_stuck_example = ustar_stuck link_disk 4096 (text small_path) 1000 5 (λ _. 9) link-IsOther

abbrev console : Console
console = record {
  screen = record {
    vga_buffer = λ n. record { character = b' '; colour = 7 };
    column_counter = 0;
    foreground = 7;
    background = 0;
  };
  serial = [];
}

ustar_list_files_lem_example :
    ustar_list_files small_disk 4096 2 console
    ≡ some (shown (listing_text (small_file ∷ [])) console)
ustar_list_files_lem_example =
    ustar_list_files_lem small_disk 4096 2 (small_file ∷ []) console small_archive (omega arith, tt)
      (omega arith, tt) (omega arith)
