-- ===== src/Ustar.antt =====
-- bootloader/cboot/src/ustar.c: the archive of the root partition, read from a drive by sectors.
-- A loop `while(1)` runs on fuel, and `none` is a loop that has not ended when the fuel is gone.
pub mod Archive
pub mod Example
pub mod Find
pub mod Header
pub mod Listing
pub mod Load
pub mod Name
pub mod Octal
pub mod Stuck
mod Tests
use learning_osdev.Base.{
  ℕ, zero, suc, ◌+◌, ◌-◌, ◌*◌, ◌/◌, ◌%◌, ◌^◌, ◌||◌, Option, none, some, List, [], ◌∷◌, ◌==◌,
  if◌then◌else◌, u8, u32, u64, ltb, ◌>>=◌,
}
use learning_osdev.Str.{Bytes, from, text, memcmp, strncmp, strncpy, put}

-- The sectors of the drive, of 512 bytes.
abbrev pub Disk : Type 0
Disk = ℕ → Bytes

-- What ATA_PIO_read_sectors reads: byte `i` of the destination. The arguments are cast to
-- uint32_t and uint8_t, and 28 bits of the sector's number reach the drive.
unfoldable pub sectors_read : Disk → ℕ → Bytes
sectors_read disk first_sector i = disk (u32 first_sector % 2 ^ 28 + i / 512) (i % 512)

-- Bytes that it writes.
unfoldable pub sectors_length : ℕ → ℕ
sectors_length num_sectors = 512 * u8 num_sectors

-- The destination after ATA_PIO_read_sectors.
unfoldable pub sectors_read_into : Disk → ℕ → ℕ → Bytes → Bytes
sectors_read_into disk first_sector num_sectors dst i =
    if ltb i (sectors_length num_sectors) then sectors_read disk first_sector i else dst i

-- The loop of oct2bin at index `i`, with so many digits left.
unfoldable pub oct2bin_loop : ℕ → ℕ → Bytes → ℕ → ℕ
oct2bin_loop zero i str result = result
oct2bin_loop (suc left) i str result =
    oct2bin_loop left (i + 1) str (u64 (u64 (result * 8) + (str i + 2 ^ 64 - b'0')))

unfoldable pub oct2bin : Bytes → ℕ → ℕ
unfolding oct2bin_loop
oct2bin str size = oct2bin_loop size 0 str 0

-- The fields of USTAR_MetadataSector that are used, at their offsets.
abbrev pub mdata_filename : Bytes → Bytes
mdata_filename buf = from 0 buf

abbrev pub mdata_filesize : Bytes → Bytes
mdata_filesize buf = from 0x7c buf

abbrev pub mdata_type : Bytes → ℕ
mdata_type buf = buf 156

abbrev pub mdata_signature : Bytes → Bytes
mdata_signature buf = from 257 buf

abbrev pub mdata_filename_prefix : Bytes → Bytes
mdata_filename_prefix buf = from 345 buf

abbrev pub ustar_text : List ℕ
ustar_text = b'u' ∷ b's' ∷ b't' ∷ b'a' ∷ b'r' ∷ []

unfoldable pub signature_differs : Bytes → ℕ
signature_differs buf = memcmp (mdata_signature buf) (text ustar_text) 5

-- The buffer `filename`: a slash, the prefix and the name.
unfoldable pub full_filename : Bytes → Bytes
full_filename buf =
    let (prefix_size, b) = strncpy 1 (mdata_filename_prefix buf) 155 (put (λ _. 0) 0 b'/') in
    (strncpy (1 + prefix_size) (mdata_filename buf) 100 b).1

-- The `switch` on the type of an entry: where the next entry is read.
unfoldable pub next_seeker : ℕ → ℕ → ℕ → ℕ
next_seeker type num_sectors seeker =
    if type == 0 || type == b'0'
    then u64 (u64 (seeker + 1) + num_sectors)
    else if type == b'5'
    then u64 (seeker + 1)
    else seeker

-- The return value, and the number at `ret_filesize` afterwards.
abbrev pub minus_one : ℕ
minus_one = 2 ^ 64 - 1

module _ (disk : Disk) (starting_lba : ℕ) (path : Bytes) where
  unfoldable pub ustar_get_filesize_loop : ℕ → ℕ → ℕ → Option (ℕ × ℕ)
  ustar_get_filesize_loop zero seeker ret_filesize = none
  ustar_get_filesize_loop (suc f) seeker ret_filesize =
      let buf = sectors_read disk (u64 (seeker + starting_lba)) in
      let filesize = oct2bin (mdata_filesize buf) 11 in
      let num_sectors = u32 (u64 (filesize + 511) / 512) in
      let rest =
        ustar_get_filesize_loop f (next_seeker (mdata_type buf) num_sectors seeker) ret_filesize in
      if signature_differs buf == 0
      then (if strncmp (full_filename buf) path 257 == 0 then some (0, filesize) else rest)
      else some (minus_one, ret_filesize)

  -- With so many rounds of the loop.
  unfoldable pub ustar_get_filesize : ℕ → ℕ → Option (ℕ × ℕ)
  ustar_get_filesize fuel ret_filesize = ustar_get_filesize_loop fuel 0 ret_filesize

  -- The return value, and `sectors` afterwards. The result of ustar_get_filesize goes through an
  -- `int`, which keeps 0 and -1 as they are.
  unfoldable pub ustar_get_num_sectors : ℕ → ℕ → Option (ℕ × ℕ)
  ustar_get_num_sectors fuel sectors = do
    (result, filesize) ← ustar_get_filesize fuel 0
    some (if result == 0 then (result, u64 (filesize + 511) / 512) else (result, sectors))

  -- The return value, and the bytes at `dst_buf` afterwards. `filesize` and `num_sectors` are u32.
  unfoldable pub ustar_load_file_loop : ℕ → ℕ → Bytes → Option (ℕ × Bytes)
  ustar_load_file_loop zero seeker dst_buf = none
  ustar_load_file_loop (suc f) seeker dst_buf =
      let buf = sectors_read disk (u64 (seeker + starting_lba)) in
      let filesize = u32 (oct2bin (mdata_filesize buf) 11) in
      let num_sectors = u32 (filesize + 511) / 512 in
      let rest = ustar_load_file_loop f (next_seeker (mdata_type buf) num_sectors seeker) dst_buf in
      if signature_differs buf == 0
      then (if strncmp (full_filename buf) path 257 == 0
          then some (
            filesize,
            sectors_read_into disk (u64 (u64 (seeker + 1) + starting_lba)) num_sectors dst_buf,
          )
          else rest)
      else some (0, dst_buf)

  unfoldable pub ustar_load_file : ℕ → Bytes → Option (ℕ × Bytes)
  ustar_load_file fuel dst_buf = ustar_load_file_loop fuel 0 dst_buf
