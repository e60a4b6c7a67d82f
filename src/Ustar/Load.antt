-- ===== src/Ustar/Load.antt =====
-- ustar_load_file of ustar.c reads the contents of a file, up to 255 sectors of it.
use learning_osdev.Base.{
  ℕ, zero, suc, ◌+◌, ◌*◌, ◌/◌, ◌%◌, ◌^◌, ◌<◌, ◌≡◌, arith, List, [], ◌∷◌, length, if◌then◌else◌,
  Bool-cases, inl, inr, Option, some, none, u32, u64, ltb,
}
use mathlib.Core.Path.{fun_ext}
use learning_osdev.Str.{text, Bytes}
use learning_osdev.Str.Text.{IsText}
use learning_osdev.Ustar.{
  Disk, sectors_read, sectors_read_into, sectors_length, ustar_load_file_loop, ustar_load_file,
}
use learning_osdev.Ustar.Name.{path_of}
use learning_osdev.Ustar.Archive.{
  Kind, file, directory, Entry, IsArchive, end, entry, same_text, find_contents, blocks, IsSmall,
}
use learning_osdev.Ustar.Header.{
  sector_read, IsHeader-cong, signed-zero, header-size, header-next, strncmp-test,
}
use learning_osdev.Ustar.Find.{ends}

-- The bytes of the drive from a sector on: byte `i`.
abbrev pub contents : Disk → ℕ → Bytes
contents disk first i = disk (first + i / 512) (i % 512)

-- What ustar_load_file leaves at `dst_buf`: of the sectors that the file takes, as many as an
-- 8-bit count can say.
abbrev pub loaded : Disk → ℕ → ℕ → Bytes → Bytes
loaded disk first size dst_buf i =
    if ltb i (512 * ((size + 511) / 512 % 2 ^ 8)) then contents disk first i else dst_buf i

-- The return value and the destination, for what a lookup finds.
abbrev pub load_answer : Disk → ℕ → Option (ℕ × ℕ) → Bytes → ℕ × Bytes
load_answer disk lba none dst_buf = (0, dst_buf)
load_answer disk lba (some (seeker, size)) dst_buf = (size, loaded disk (seeker + lba) size dst_buf)

archive-near :
    {disk : Disk} {lba seeker : ℕ} {es : List Entry}
    → IsArchive disk lba seeker es
    → seeker + lba < 2 ^ 28
archive-near (end near differs) = near
archive-near (entry near h rest) = near

header-in_range :
    {disk : Disk} {lba : ℕ} {es : List Entry} (seeker : ℕ) (k : Kind) (size : ℕ)
    → IsArchive disk lba (seeker + blocks k size) es
    → seeker + 1 + lba < 2 ^ 28
header-in_range seeker file size a = omega (arith, archive-near a)
header-in_range seeker directory size a = omega (arith, archive-near a)

read_into-loaded :
    (disk : Disk) (first size : ℕ) (dst_buf : Bytes)
    → first < 2 ^ 28
    → size + 511 < 2 ^ 32
    → sectors_read_into disk first (u32 (size + 511) / 512) dst_buf ≡ loaded disk first size dst_buf
unfolding sectors_read_into sectors_length sectors_read
read_into-loaded disk first size dst_buf near small =
    let e : u32 first % 2 ^ 28 ≡ first = omega arith in
    let f : u32 (size + 511) ≡ size + 511 = omega arith in fun_ext λ i. rw (e, f)

module _ (disk : Disk) (lba : ℕ) (path : List ℕ) (is_path : IsText path) (dst_buf : Bytes) where
  load_file_loop-find :
      (f seeker : ℕ) (es : List Entry)
      → IsArchive disk lba seeker es
      → IsSmall es
      → length es < f
      → ustar_load_file_loop disk lba (text path) f seeker dst_buf
        ≡ some (load_answer disk lba (find_contents path seeker es) dst_buf)
  unfolding ustar_load_file_loop
  load_file_loop-find zero seeker es a small fuel = absurd (omega arith)
  load_file_loop-find (suc f) seeker [] (end near differs) small fuel =
      rw (ends disk lba seeker near differs)
  load_file_loop-find (suc f) seeker (e ∷ es) (entry near header rest) (fits, small) fuel =
      let buf = sectors_read disk (u64 (seeker + lba)) in
      let h = IsHeader-cong (λ i lt. sector_read disk lba seeker i near lt) header in
      let next =
        load_file_loop-find f (seeker + blocks e.kind e.size) es rest small (omega arith) in
      let in_range = header-in_range seeker e.kind e.size rest in
      let e32 : u32 e.size ≡ e.size = omega arith in
      let first : u64 (u64 (seeker + 1) + lba) ≡ seeker + 1 + lba = omega arith in
      let num : u32 (e.size + 511) / 512 ≡ u32 (u64 (e.size + 511) / 512) = omega arith in
      rw
        (
          signed-zero buf h.signed,
          header-size buf e h,
          e32,
          strncmp-test buf e h path is_path,
          first,
          read_into-loaded disk (seeker + 1 + lba) e.size dst_buf in_range fits,
        )
        (elim (Bool-cases (same_text (path_of e.prefix e.name) path)) [
          | inl found ↦ rw found
          | inr other ↦ rw (other, num, header-next buf e h seeker (omega arith)) next
        ])

  -- On an archive whose entries are files and directories of less than 4 GiB, ustar_load_file ends
  -- within one round more than the archive has entries. It returns the size of the first entry with
  -- the path and reads its sectors to `dst_buf`, but only as many as their count modulo 256; with
  -- no such entry it returns 0 and leaves `dst_buf`.
  pub ustar_load_file_lem :
      (fuel : ℕ) (es : List Entry)
      → IsArchive disk lba 0 es
      → IsSmall es
      → length es < fuel
      → ustar_load_file disk lba (text path) fuel dst_buf
        ≡ some (load_answer disk lba (find_contents path 0 es) dst_buf)
  unfolding ustar_load_file
  ustar_load_file_lem fuel es a small enough = load_file_loop-find fuel 0 es a small enough
