-- ===== src/Ustar/Archive.antt =====
-- Archives on a drive, described without reference to the code that reads them: the format, and
-- what looking up a path in an archive means.
use learning_osdev.Base.{
  ℕ, ◌+◌, ◌/◌, ◌^◌, ◌<◌, ◌≡◌, ◌⊎◌, Bool, true, false, ◌&&◌, Option, none, some, List, [], ◌∷◌, ◌==◌,
  if◌then◌else◌, refl, arith, ap₂,
}
use learning_osdev.Str.{Bytes, text}
use learning_osdev.Ustar.{
  Disk, mdata_filename, mdata_filesize, mdata_type, mdata_signature, mdata_filename_prefix,
  ustar_text,
}
use learning_osdev.Ustar.Octal.{IsOctal}
use learning_osdev.Ustar.Name.{IsField, path_of}

pub data Kind : Type 0 where
  file directory : Kind

pub record Entry : Type 0 where
  pub prefix : List ℕ
  pub name : List ℕ
  pub kind : Kind
  pub size : ℕ

-- The sectors of an entry: its header, and for a file its contents.
abbrev pub blocks : Kind → ℕ → ℕ
blocks file size = 1 + (size + 511) / 512
blocks directory size = 1

abbrev pub HasType : Kind → ℕ → Type 0
HasType file type = (type ≡ 0) ⊎ (type ≡ b'0')
HasType directory type = type ≡ b'5'

abbrev pub HasSignature : Bytes → Type 0
HasSignature sector = (j : ℕ) → j < 5 → mdata_signature sector j ≡ text ustar_text j

-- A sector that is the header of an entry.
pub record IsHeader (sector : Bytes) (e : Entry) : Type 0 where
  pub signed : HasSignature sector
  pub prefix_field : IsField (mdata_filename_prefix sector) 155 e.prefix
  pub name_field : IsField (mdata_filename sector) 100 e.name
  pub octal : IsOctal (mdata_filesize sector) 11 e.size
  pub fits : e.size < 8 ^ 11
  pub typed : HasType e.kind (mdata_type sector)

-- The entries of the archive from the sector `seeker` of the partition on. The first sector without
-- the signature ends it. Sectors have numbers of 28 bits.
pub data IsArchive (disk : Disk) (lba : ℕ) : ℕ → List Entry → Type 0 where
  end :
      {seeker : ℕ}
      → seeker + lba < 2 ^ 28
      → ¬ HasSignature (disk (seeker + lba))
      → IsArchive disk lba seeker []
  entry :
      {seeker : ℕ} {e : Entry} {es : List Entry}
      → seeker + lba < 2 ^ 28
      → IsHeader (disk (seeker + lba)) e
      → IsArchive disk lba (seeker + blocks e.kind e.size) es
      → IsArchive disk lba seeker (e ∷ es)

abbrev pub same_text : List ℕ → List ℕ → Bool
same_text [] [] = true
same_text [] (y ∷ ys) = false
same_text (x ∷ xs) [] = false
same_text (x ∷ xs) (y ∷ ys) = x == y && same_text xs ys

pub same_text-eq : (xs ys : List ℕ) → same_text xs ys ≡ true → xs ≡ ys
same_text-eq [] [] h = refl
same_text-eq [] (y ∷ ys) h = absurd (ground arith)
same_text-eq (x ∷ xs) [] h = absurd (ground arith)
same_text-eq (x ∷ xs) (y ∷ ys) h = ap₂ ◌∷◌ (ground arith) (same_text-eq xs ys (ground arith))

pub same_text_refl : (xs : List ℕ) → same_text xs xs ≡ true
same_text_refl [] = refl
same_text_refl (x ∷ xs) = ground (arith, same_text_refl xs)

-- The size of the first entry with the path.
abbrev pub find_size : List ℕ → List Entry → Option ℕ
find_size path [] = none
find_size path (e ∷ es) =
    if same_text (path_of e.prefix e.name) path then some e.size else find_size path es

-- Where the contents of the first entry with the path begin, from the sector `seeker` on, and the
-- size.
abbrev pub find_contents : List ℕ → ℕ → List Entry → Option (ℕ × ℕ)
find_contents path seeker [] = none
find_contents path seeker (e ∷ es) =
    if same_text (path_of e.prefix e.name) path
    then some (seeker + 1, e.size)
    else find_contents path (seeker + blocks e.kind e.size) es

-- The sizes do not reach the last sector of 4 GiB.
abbrev pub IsSmall : List Entry → Type 0
IsSmall [] = Unit {0}
IsSmall (e ∷ es) = (e.size + 511 < 2 ^ 32) × IsSmall es
