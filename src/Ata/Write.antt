-- ===== src/Ata/Write.antt =====
-- ATA_PIO_write_sectors of bootloader/cboot/src/ata.c: how far it reads the source.
use learning_osdev.Base.{
  ℕ, zero, suc, ◌+◌, ◌*◌, ◌<◌, ◌≤◌, ◌≡◌, refl, arith, Option, none, some, u8, ◌>>=◌,
}
use learning_osdev.Ports.{Ports}
use learning_osdev.Str.{Bytes}
use learning_osdev.Ata.{
  load32, ata_pio_wait_bsy, ata_pio_wait_drq, write_words, write_sectors, ata_pio_write_sectors,
}

-- The two sources are the same in their first `n` bytes.
abbrev pub Agree : ℕ → Bytes → Bytes → Type 0
Agree n a b = (i : ℕ) → i < n → a i ≡ b i

load32-same : (n p : ℕ) (a b : Bytes) → Agree n a b → p + 4 ≤ n → load32 a p ≡ load32 b p
unfolding load32
load32-same n p a b same le = omega (
  arith,
  same p (omega arith),
  same (p + 1) (omega arith),
  same (p + 2) (omega arith),
  same (p + 3) (omega arith),
)

bind-same :
    {A B : Type 0} (x : Option A) (f g : A → Option B)
    → ((y : A) → f y ≡ g y)
    → (x >>= f) ≡ (x >>= g)
bind-same none f g same = refl
bind-same (some y) f g same = same y

module _ {D : Type 0} (ports : Ports D) (a b : Bytes) where
  -- The words from `next` on, and how many have been read.
  write_words-same :
      (left next : ℕ) (d : D)
      → Agree (4 * (next + left)) a b
      → (write_words ports left a next d ≡ write_words ports left b next d)
        × ((write_words ports left b next d).0 ≡ next + left)
  unfolding write_words
  write_words-same zero next d same = (refl, omega arith)
  write_words-same (suc left) next d same =
      let rest =
        write_words-same left (next + 1) (ports.io_out32 0x1F0 (load32 b (4 * next)) d)
          (λ i lt. same i (omega arith)) in
      rw (load32-same (4 * (next + suc left)) (4 * next) a b same (omega arith))
        (rest.0, omega (arith, rest.1))

  write_sectors-same :
      (fuel left next : ℕ) (d : D)
      → Agree (4 * (next + 256 * left)) a b
      → write_sectors ports fuel left a next d ≡ write_sectors ports fuel left b next d
  unfolding write_sectors
  write_sectors-same fuel zero next d same = refl
  write_sectors-same fuel (suc left) next d same =
      bind-same (ata_pio_wait_bsy ports fuel d) _ _ (λ d1.
        bind-same (ata_pio_wait_drq ports fuel d1) _ _ (λ d2.
          let w = write_words-same 256 next d2 (λ i lt. same i (omega arith)) in
          rw (w.0, w.1)
            (write_sectors-same fuel left (next + 256) _ (λ i lt. same i (omega arith)))))

  -- ATA_PIO_write_sectors reads at most 1024 bytes of the source for each sector: two sources that
  -- agree so far are written alike, on any drive.
  pub ata_pio_write_sectors-Agree :
      (fuel first num : ℕ) (d : D)
      → Agree (1024 * u8 num) a b
      → ata_pio_write_sectors ports fuel a first num d
        ≡ ata_pio_write_sectors ports fuel b first num d
  unfolding ata_pio_write_sectors
  ata_pio_write_sectors-Agree fuel first num d same =
      bind-same (ata_pio_wait_bsy ports fuel d) _ _
        (λ d1. write_sectors-same fuel (u8 num) 0 _ (λ i lt. same i (omega arith)))
