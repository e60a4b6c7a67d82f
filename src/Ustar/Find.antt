-- ===== src/Ustar/Find.antt =====
-- ustar_get_filesize and ustar_get_num_sectors of ustar.c look up a path in an archive.
use learning_osdev.Base.{
  ℕ, zero, suc, ◌+◌, ◌/◌, ◌^◌, ◌<◌, ◌≡◌, arith, List, [], ◌∷◌, length, ◌==◌, Bool-cases,
  Option-cases, inl, inr, Option, some, none, u64, false, sym, ◌∙◌,
}
use learning_osdev.Str.{text}
use learning_osdev.Str.Text.{IsText}
use learning_osdev.Ustar.{
  Disk, sectors_read, ustar_get_filesize_loop, ustar_get_filesize, ustar_get_num_sectors, minus_one,
  signature_differs,
}
use learning_osdev.Ustar.Name.{path_of}
use learning_osdev.Ustar.Archive.{
  Entry, HasSignature, IsArchive, end, entry, same_text, find_size, blocks,
}
use learning_osdev.Ustar.Header.{
  sector_read, IsHeader-cong, signed-zero, zero-signed, header-size, header-next, strncmp-test,
}

-- The return value and the number at `ret_filesize`, for what a lookup finds.
abbrev pub filesize_answer : Option ℕ → ℕ → ℕ × ℕ
filesize_answer none ret_filesize = (minus_one, ret_filesize)
filesize_answer (some size) ret_filesize = (0, size)

abbrev pub num_sectors_answer : Option ℕ → ℕ → ℕ × ℕ
num_sectors_answer none sectors = (minus_one, sectors)
num_sectors_answer (some size) sectors = (0, (size + 511) / 512)

module _ (disk : Disk) (lba : ℕ) where
  signed :
      (seeker : ℕ)
      → seeker + lba < 2 ^ 28
      → signature_differs (sectors_read disk (u64 (seeker + lba))) ≡ 0
      → HasSignature (disk (seeker + lba))
  signed seeker near z j lt =
      sym (sector_read disk lba seeker (257 + j) near (omega arith))
      ∙ zero-signed (sectors_read disk (u64 (seeker + lba))) z j lt

  pub ends :
      (seeker : ℕ)
      → seeker + lba < 2 ^ 28
      → ¬ HasSignature (disk (seeker + lba))
      → (signature_differs (sectors_read disk (u64 (seeker + lba))) == 0) ≡ false
  ends seeker near none_there =
      elim (Bool-cases (signature_differs (sectors_read disk (u64 (seeker + lba))) == 0)) [
        | inl z ↦ absurd (none_there (signed seeker near (ground arith)))
        | inr nz ↦ nz
      ]

module _ (disk : Disk) (lba : ℕ) (path : List ℕ) (is_path : IsText path) (ret_filesize : ℕ) where
  get_filesize_loop-find :
      (f seeker : ℕ) (es : List Entry)
      → IsArchive disk lba seeker es
      → length es < f
      → ustar_get_filesize_loop disk lba (text path) f seeker ret_filesize
        ≡ some (filesize_answer (find_size path es) ret_filesize)
  unfolding ustar_get_filesize_loop
  get_filesize_loop-find zero seeker es a fuel = absurd (omega arith)
  get_filesize_loop-find (suc f) seeker [] (end near differs) fuel =
      rw (ends disk lba seeker near differs)
  get_filesize_loop-find (suc f) seeker (e ∷ es) (entry near header rest) fuel =
      let buf = sectors_read disk (u64 (seeker + lba)) in
      let h = IsHeader-cong (λ i lt. sector_read disk lba seeker i near lt) header in
      let next = get_filesize_loop-find f (seeker + blocks e.kind e.size) es rest (omega arith) in
      rw
        (
          signed-zero buf h.signed,
          header-size buf e h,
          header-next buf e h seeker (omega arith),
          strncmp-test buf e h path is_path,
        )
        (elim (Bool-cases (same_text (path_of e.prefix e.name) path)) [
          | inl found ↦ rw found
          | inr other ↦ rw other next
        ])

  -- On an archive whose entries are files and directories, ustar_get_filesize ends within one
  -- round more than the archive has entries. It returns 0 and the size of the first entry with the
  -- path, or -1 and leaves the number at `ret_filesize` if there is none. The path of an entry is a
  -- slash and its prefix and name in one.
  pub ustar_get_filesize_lem :
      (fuel : ℕ) (es : List Entry)
      → IsArchive disk lba 0 es
      → length es < fuel
      → ustar_get_filesize disk lba (text path) fuel ret_filesize
        ≡ some (filesize_answer (find_size path es) ret_filesize)
  unfolding ustar_get_filesize
  ustar_get_filesize_lem fuel es a enough = get_filesize_loop-find fuel 0 es a enough

module _ (disk : Disk) (lba : ℕ) (path : List ℕ) (is_path : IsText path) where
  find_size-lt :
      (seeker n : ℕ) (es : List Entry)
      → IsArchive disk lba seeker es
      → find_size path es ≡ some n
      → n < 8 ^ 11
  find_size-lt seeker n [] a e = absurd (ground arith)
  find_size-lt seeker n (e ∷ es) (entry near h rest) found =
      ground (arith, h.fits, find_size-lt (seeker + blocks e.kind e.size) n es rest)

  -- On an archive whose entries are files and directories, with a round more than the
  -- archive has entries, ustar_get_num_sectors returns 0 and the number of sectors that the file
  -- takes, or -1 and leaves the number at `sectors` if there is no entry with the path.
  pub ustar_get_num_sectors_lem :
      (fuel sectors : ℕ) (es : List Entry)
      → IsArchive disk lba 0 es
      → length es < fuel
      → ustar_get_num_sectors disk lba (text path) fuel sectors
        ≡ some (num_sectors_answer (find_size path es) sectors)
  unfolding ustar_get_num_sectors
  ustar_get_num_sectors_lem fuel sectors es a enough =
      rw (ustar_get_filesize_lem disk lba path is_path 0 fuel es a enough)
        (elim (Option-cases (find_size path es)) [
          | inl e ↦ rw e
          | inr (n, e) ↦
              let lt = find_size-lt 0 n es a e in
              let small : u64 (n + 511) ≡ n + 511 = omega arith in rw (e, small)
        ])
