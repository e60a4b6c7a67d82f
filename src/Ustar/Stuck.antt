-- ===== src/Ustar/Stuck.antt =====
-- The loops of ustar.c at an entry that is neither a file nor a directory, such as a link.
use learning_osdev.Base.{ℕ, zero, suc, ◌+◌, ◌≡◌, ◌≢◌, refl, arith, ◌==◌, none, u64, false}
use learning_osdev.Str.{Bytes, strncmp}
use learning_osdev.Ustar.{
  Disk, sectors_read, mdata_type, signature_differs, full_filename, next_seeker,
  ustar_get_filesize_loop, ustar_get_filesize, ustar_load_file_loop, ustar_load_file,
}

module _ (disk : Disk) (lba : ℕ) (path : Bytes) where
  -- The sector at `seeker` is signed, has another path and is of another type.
  pub record IsOther (seeker : ℕ) : Type 0 where
    pub signed : signature_differs (sectors_read disk (u64 (seeker + lba))) ≡ 0
    pub elsewhere : strncmp (full_filename (sectors_read disk (u64 (seeker + lba)))) path 257 ≢ 0
    pub not_old_file : mdata_type (sectors_read disk (u64 (seeker + lba))) ≢ 0
    pub not_file : mdata_type (sectors_read disk (u64 (seeker + lba))) ≢ b'0'
    pub not_directory : mdata_type (sectors_read disk (u64 (seeker + lba))) ≢ b'5'

  stays :
      {seeker : ℕ} (n : ℕ)
      → IsOther seeker
      → next_seeker (mdata_type (sectors_read disk (u64 (seeker + lba)))) n seeker ≡ seeker
  unfolding next_seeker
  stays n o = ground (arith, o.not_old_file, o.not_file, o.not_directory)

  get_filesize-stuck :
      (f seeker ret_filesize : ℕ)
      → IsOther seeker
      → ustar_get_filesize_loop disk lba path f seeker ret_filesize ≡ none
  unfolding ustar_get_filesize_loop
  get_filesize-stuck zero seeker ret o = refl
  get_filesize-stuck (suc f) seeker ret o =
      let not_here : (strncmp (full_filename (sectors_read disk (u64 (seeker + lba)))) path 257
            == 0)
          ≡ false =
        ground (arith, o.elsewhere) in
      rw (o.signed, not_here, stays _ o) (get_filesize-stuck f seeker ret o)

  load_file-stuck :
      (f seeker : ℕ) (dst_buf : Bytes)
      → IsOther seeker
      → ustar_load_file_loop disk lba path f seeker dst_buf ≡ none
  unfolding ustar_load_file_loop
  load_file-stuck zero seeker dst o = refl
  load_file-stuck (suc f) seeker dst o =
      let not_here : (strncmp (full_filename (sectors_read disk (u64 (seeker + lba)))) path 257
            == 0)
          ≡ false =
        ground (arith, o.elsewhere) in
      rw (o.signed, not_here, stays _ o) (load_file-stuck f seeker dst o)

  -- If the first entry of the partition has another path and is neither a file nor a directory,
  -- such as a link, then neither ustar_get_filesize nor ustar_load_file ends, with any fuel.
  pub ustar_stuck :
      (fuel ret_filesize : ℕ) (dst_buf : Bytes)
      → IsOther 0
      → (ustar_get_filesize disk lba path fuel ret_filesize ≡ none)
        × (ustar_load_file disk lba path fuel dst_buf ≡ none)
  unfolding ustar_get_filesize ustar_load_file
  ustar_stuck fuel ret dst o = (get_filesize-stuck fuel 0 ret o, load_file-stuck fuel 0 dst o)
