-- ===== src/Ustar/Header.antt =====
-- What the loops of ustar.c compute from a sector that is the header of an entry.
use learning_osdev.Base.{
  ℕ, ◌+◌, ◌/◌, ◌%◌, ◌^◌, ◌<◌, ◌≡◌, arith, List, length, ◌==◌, ap, sym, ◌∙◌, true, u32, u64,
  length-append,
}
use learning_osdev.Str.{Bytes, text, strncmp}
use learning_osdev.Str.Compare.{memcmp_lem, strncmp_lem, IsBytes}
use learning_osdev.Str.Text.{IsText, IsText-append, text-IsBytes, text-injective}
use learning_osdev.Ustar.{
  Disk, sectors_read, mdata_filesize, mdata_type, mdata_signature, ustar_text, oct2bin, next_seeker,
  signature_differs, full_filename,
}
use learning_osdev.Ustar.Octal.{oct2bin_lem}
use learning_osdev.Ustar.Name.{path_of, full_filename_lem}
use learning_osdev.Ustar.Archive.{
  Kind, file, directory, Entry, blocks, HasType, HasSignature, IsHeader, same_text, same_text-eq,
  same_text_refl,
}

-- The buffer holds the sector.
pub sector_read :
    (disk : Disk) (lba seeker i : ℕ)
    → seeker + lba < 2 ^ 28
    → i < 512
    → sectors_read disk (u64 (seeker + lba)) i ≡ disk (seeker + lba) i
unfolding sectors_read
sector_read disk lba seeker i near lt =
    let e : u32 (u64 (seeker + lba)) % 2 ^ 28 + i / 512 ≡ seeker + lba = omega arith in
    let f : i % 512 ≡ i = omega arith in rw (e, f)

pub IsHeader-cong :
    {a b : Bytes} {e : Entry} → ((i : ℕ) → i < 512 → a i ≡ b i) → IsHeader b e → IsHeader a e
IsHeader-cong {a} {b} {e} same h = record {
  signed = λ j lt. same (257 + j) (omega arith) ∙ h.signed j lt;
  prefix_field = record {
    holds = λ j lt. same (345 + j) (omega arith) ∙ h.prefix_field.holds j lt;
    fits = h.prefix_field.fits;
    is_text = h.prefix_field.is_text;
  };
  name_field = record {
    holds = λ j lt. same (0 + j) (omega arith) ∙ h.name_field.holds j lt;
    fits = h.name_field.fits;
    is_text = h.name_field.is_text;
  };
  octal = λ i lt. same (0x7c + i) (omega arith) ∙ h.octal i lt;
  fits = h.fits;
  typed = rw (same 156 (omega arith)) h.typed;
}

pub signed-zero : (buf : Bytes) → HasSignature buf → signature_differs buf ≡ 0
unfolding signature_differs
signed-zero buf h = (memcmp_lem (mdata_signature buf) (text ustar_text) 5).0.1 h

pub zero-signed : (buf : Bytes) → signature_differs buf ≡ 0 → HasSignature buf
unfolding signature_differs
zero-signed buf h = (memcmp_lem (mdata_signature buf) (text ustar_text) 5).0.0 h

module _ (buf : Bytes) (e : Entry) (h : IsHeader buf e) where
  pub header-size : oct2bin (mdata_filesize buf) 11 ≡ e.size
  header-size = oct2bin_lem (mdata_filesize buf) 11 e.size (omega (arith, h.fits)) h.octal h.fits

  pub header-next :
      (seeker : ℕ)
      → seeker < 2 ^ 32
      → next_seeker (mdata_type buf) (u32 (u64 (e.size + 511) / 512)) seeker
        ≡ seeker + blocks e.kind e.size
  unfolding next_seeker
  header-next seeker small = next e.kind h.typed
    where
      next :
          (k : Kind)
          → HasType k (mdata_type buf)
          → next_seeker (mdata_type buf) (u32 (u64 (e.size + 511) / 512)) seeker
            ≡ seeker + blocks k e.size
      next file t = ground (arith, h.fits)
      next directory t = ground arith

  header-IsText : IsText (path_of e.prefix e.name)
  header-IsText = (
    ground arith,
    omega arith,
    IsText-append e.prefix e.name h.prefix_field.is_text h.name_field.is_text,
  )

  header-filename : (j : ℕ) → full_filename buf j ≡ text (path_of e.prefix e.name) j
  header-filename = full_filename_lem buf e.prefix e.name h.prefix_field h.name_field

  filename-IsBytes : IsBytes (full_filename buf)
  filename-IsBytes j =
      rw (header-filename j) (text-IsBytes (path_of e.prefix e.name) header-IsText j)

  module _ (path : List ℕ) (is_path : IsText path) where
    strncmp-same :
        strncmp (full_filename buf) (text path) 257 ≡ 0
        → same_text (path_of e.prefix e.name) path ≡ true
    strncmp-same z =
        let same =
          (strncmp_lem (full_filename buf) (text path) filename-IsBytes (text-IsBytes path is_path)
              257).0
            z in
        let equal =
          text-injective (path_of e.prefix e.name) path 257 header-IsText is_path short
            λ j lo hi before.
              sym (header-filename j)
              ∙ same j lo hi (λ k lo' hi'. rw (header-filename k) (before k lo' hi')) in
        rw (← equal) (same_text_refl (path_of e.prefix e.name))
      where
        short : length (path_of e.prefix e.name) < 257
        short = omega (arith, h.prefix_field.fits, h.name_field.fits, length-append e.prefix e.name)

    same-strncmp :
        same_text (path_of e.prefix e.name) path ≡ true
        → strncmp (full_filename buf) (text path) 257 ≡ 0
    same-strncmp t =
        (strncmp_lem (full_filename buf) (text path) filename-IsBytes (text-IsBytes path is_path)
            257).1
          λ j lo hi before.
            header-filename j ∙ ap (λ (xs : List ℕ). text xs j) (same_text-eq _ path t)

    pub strncmp-test :
        (strncmp (full_filename buf) (text path) 257 == 0)
        ≡ same_text (path_of e.prefix e.name) path
    strncmp-test = ground (arith, strncmp-same, same-strncmp)
