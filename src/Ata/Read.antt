-- ===== src/Ata/Read.antt =====
-- ATA_PIO_read_sectors of bootloader/cboot/src/ata.c on a drive.
use learning_osdev.Base.{
  ℕ, zero, suc, ◌+◌, ◌-◌, ◌*◌, ◌/◌, ◌%◌, ◌^◌, ◌≤◌, ◌<◌, ◌≡◌, ◌⊎◌, inl, inr, refl, ◌∙◌, arith,
  Bool-cases, Option, some, ltb, ◌==◌, if◌then◌else◌, u8, u32, ◌>>=◌,
}
use learning_osdev.Ports.{Ports}
use learning_osdev.Str.{Bytes}
use learning_osdev.Ustar.{Disk, sectors_read, sectors_read_into, sectors_length}
use learning_osdev.Ata.{store16, ata_pio_command, read_words, read_sectors, ata_pio_read_sectors}
use learning_osdev.Ata.Wait.{wait_bsy_lem, wait_drq_lem, command_lem}
use learning_osdev.Ata.Drive.{idle, transfer, disk_word, IsDrive}

-- Byte `i` from the start of word `next` of the disk on.
abbrev disk_byte : Disk → ℕ → ℕ → ℕ
disk_byte disk next i = disk ((2 * next + i) / 512) ((2 * next + i) % 512)

module _ {D : Type 0} (ports : Ports D) (disk : Disk) (drive : IsDrive ports disk) where
  -- The words of one run of the inner loop, up to the end of a sector.
  record IsReadWords (next left more offset : ℕ) (dst : Bytes) (result : Bytes × D) : Type 0 where
    inside : (i : ℕ) → i < 2 * left → result.0 (offset + i) ≡ disk_byte disk next i
    outside : (p : ℕ) → (p < offset) ⊎ (offset + 2 * left ≤ p) → result.0 p ≡ dst p
    goes_on : drive.phase result.1 ≡ transfer (next + left) more

  -- The first word of the rest, at `offset`.
  record IsFirstWord (next offset : ℕ) (dst out : Bytes) : Type 0 where
    low : out offset ≡ disk_byte disk next 0
    high : out (offset + 1) ≡ disk_byte disk next 1
    else_same : (p : ℕ) → (p < offset) ⊎ (offset + 2 ≤ p) → out p ≡ dst p

  first_word :
      (bytes : (s i : ℕ) → disk s i < 2 ^ 8) (next offset : ℕ) (dst : Bytes) {v : ℕ}
      → v ≡ disk_word disk next
      → IsFirstWord next offset dst (store16 dst offset v)
  unfolding store16
  first_word bytes next offset dst {v} e =
      let b0 = bytes (next / 256) (2 * (next % 256)) in
      let b1 = bytes (next / 256) (2 * (next % 256) + 1) in
      let s0 : (2 * next + 0) / 512 ≡ next / 256 = omega arith in
      let i0 : (2 * next + 0) % 512 ≡ 2 * (next % 256) = omega arith in
      let s1 : (2 * next + 1) / 512 ≡ next / 256 = omega arith in
      let i1 : (2 * next + 1) % 512 ≡ 2 * (next % 256) + 1 = omega arith in
      record {
        low = rw (s0, i0) (ground arith);
        high = rw (s1, i1) (ground arith);
        else_same = λ p out. ground arith;
      }

  IsReadWords-step :
      (next left more offset : ℕ) (dst mid : Bytes) (result : Bytes × D)
      → IsFirstWord next offset dst mid
      → IsReadWords (next + 1) left more (offset + 2) mid result
      → IsReadWords next (suc left) more offset dst result
  IsReadWords-step next left more offset dst mid result first rest = record {
    inside = λ i lt. elim (Bool-cases (i == 0)) [
      | inl e0 ↦
          let z : i ≡ 0 = ground arith in
          let o : offset + 0 ≡ offset = omega arith in
          rw (z, o) (rest.outside offset (inl (omega arith)) ∙ first.low)
      | inr n0 ↦ elim (Bool-cases (i == 1)) [
        | inl e1 ↦
            let z : i ≡ 1 = ground arith in
            rw z (rest.outside (offset + 1) (inl (omega arith)) ∙ first.high)
        | inr n1 ↦
            let two : 2 ≤ i = ground arith in
            let o : offset + i ≡ offset + 2 + (i - 2) = omega arith in
            let q : 2 * next + i ≡ 2 * (next + 1) + (i - 2) = omega arith in
            rw (o, q) (rest.inside (i - 2) (omega arith))
      ]
    ];
    outside = λ p out. rest.outside p (ground arith) ∙ first.else_same p (ground arith);
    goes_on = let e : next + suc left ≡ next + 1 + left = omega arith in rw e (rest.goes_on);
  }

  read_words_lem :
      (bytes : (s i : ℕ) → disk s i < 2 ^ 8) (left i next more dest : ℕ) (dst : Bytes) (d : D)
      → next % 256 + left ≤ 256
      → drive.phase d ≡ transfer next (left + more)
      → (0 < left → drive.busy d ≡ 0)
      → IsReadWords next left more (2 * (dest + i)) dst (read_words ports left i dest dst d)
  unfolding read_words
  read_words_lem bytes zero i next more dest dst d fits here free = record {
    inside = λ k lt. absurd (omega arith);
    outside = λ p out. refl;
    goes_on =
        let e : next + 0 ≡ next = omega arith in
        let z : 0 + more ≡ more = omega arith in rw e (here ∙ rw z refl);
  }
  read_words_lem bytes (suc left) i next more dest dst d fits here free =
      let w =
        drive.word_in next (left + more) d
          (let z : suc left + more ≡ suc (left + more) = omega arith in here ∙ rw z refl)
          (free (omega arith)) in
      IsReadWords-step next left more (2 * (dest + i)) dst _ _
        (first_word bytes next (2 * (dest + i)) dst w.0)
        (let o : 2 * (dest + (i + 1)) ≡ 2 * (dest + i) + 2 = omega arith in
          rw (← o) (
            read_words_lem bytes left (i + 1) (next + 1) more dest
              (store16 dst (2 * (dest + i)) (ports.io_in16 0x1F0 d).0) (ports.io_in16 0x1F0 d).1
              (omega arith) w.1 (λ pos. w.2 (omega arith))))

  -- The sectors of one run of the outer loop.
  record IsReadSectors (next left more offset : ℕ) (dst : Bytes) (result : Option (Bytes × D))
      : Type 0 where
    out : Bytes
    after : D
    returns : result ≡ some (out, after)
    inside : (i : ℕ) → i < 512 * left → out (offset + i) ≡ disk_byte disk next i
    outside : (p : ℕ) → (p < offset) ⊎ (offset + 512 * left ≤ p) → out p ≡ dst p
    goes_on : drive.phase after ≡ transfer (next + 256 * left) more

  IsReadSectors-step :
      {next left more offset : ℕ} {dst : Bytes} {words : Bytes × D} {result : Option (Bytes × D)}
      → IsReadWords next 256 (256 * left + more) offset dst words
      → IsReadSectors (next + 256) left more (offset + 512) words.0 result
      → IsReadSectors next (suc left) more offset dst result
  IsReadSectors-step {next} {left} {more} {offset} w rest = record {
    out = rest.out;
    after = rest.after;
    returns = rest.returns;
    inside = λ i lt. elim (Bool-cases (ltb i 512)) [
      | inl first ↦ rest.outside (offset + i) (ground arith) ∙ w.inside i (ground arith)
      | inr later ↦
          let far : 512 ≤ i = ground arith in
          let o : offset + i ≡ offset + 512 + (i - 512) = omega arith in
          let q : 2 * next + i ≡ 2 * (next + 256) + (i - 512) = omega arith in
          rw (o, q) (rest.inside (i - 512) (omega arith))
    ];
    outside = λ p o. rest.outside p (ground arith) ∙ w.outside p (ground arith);
    goes_on =
        let e : next + 256 * suc left ≡ next + 256 + 256 * left = omega arith in rw e rest.goes_on;
  }

  read_sectors_lem :
      (bytes : (s i : ℕ) → disk s i < 2 ^ 8) (fuel left next more dest : ℕ) (dst : Bytes) (d : D)
      → drive.limit < fuel
      → next % 256 ≡ 0
      → drive.phase d ≡ transfer next (256 * left + more)
      → IsReadSectors next left more (2 * dest) dst (read_sectors ports fuel left dest dst d)
  unfolding read_sectors
  read_sectors_lem bytes fuel zero next more dest dst d enough aligned here = record {
    out = dst;
    after = d;
    returns = refl;
    inside = λ k lt. absurd (omega arith);
    outside = λ p o. refl;
    goes_on =
        let e : next + 256 * 0 ≡ next = omega arith in
        let z : 256 * 0 + more ≡ more = omega arith in rw e (here ∙ rw z refl);
  }
  read_sectors_lem bytes fuel (suc left) next more dest dst d enough aligned here =
      let b = wait_bsy_lem ports disk drive fuel d (omega (arith, drive.busy_bound d)) in
      let q = wait_drq_lem ports disk drive fuel b.after b.free (omega arith) in
      let split : 256 * suc left + more ≡ 256 + (256 * left + more) = omega arith in
      let start : 2 * (dest + 0) ≡ 2 * dest = omega arith in
      let w : IsReadWords next 256 (256 * left + more) (2 * dest) dst
          (read_words ports 256 0 dest dst q.after) =
        rw (← start) (
          read_words_lem bytes 256 0 next (256 * left + more) dest dst q.after (omega arith)
            (q.phase_same ∙ b.phase_same ∙ here ∙ rw split refl) (λ pos. q.free)) in
      let o : 2 * (dest + 256) ≡ 2 * dest + 512 = omega arith in
      rw (◌>>=◌, b.returns)
        (rw (◌>>=◌, q.returns)
          (IsReadSectors-step w (
            rw (← o) (
              read_sectors_lem bytes fuel left (next + 256) more (dest + 256)
                (read_words ports 256 0 dest dst q.after).0
                (read_words ports 256 0 dest dst q.after).1 enough (omega arith) w.goes_on))))

  -- `result` is a normal end of the read: the destination is as sectors_read_into says, and the
  -- drive has given all it was asked for, but for a count of 0.
  pub record IsRead (dst : Bytes) (first num : ℕ) (result : Option (Bytes × D)) : Type 0 where
    pub out : Bytes
    pub after : D
    pub returns : result ≡ some (out, after)
    pub holds : (i : ℕ) → out i ≡ sectors_read_into disk first num dst i
    pub rests : 0 < u8 num → drive.phase after ≡ idle

  -- On an idle drive that is busy for fewer readings of its status than the fuel,
  -- ATA_PIO_read_sectors ends, and the destination holds the sectors from the first on, as many as
  -- the low byte of their count; no byte after them changes. If that byte is not 0 the drive is
  -- idle again.
  pub ata_pio_read_sectors_lem :
      (fuel first num : ℕ) (dst : Bytes) (d : D)
      → ((s i : ℕ) → disk s i < 2 ^ 8)
      → drive.phase d ≡ idle
      → drive.limit < fuel
      → IsRead dst first num (ata_pio_read_sectors ports fuel dst first num d)
  unfolding ata_pio_read_sectors sectors_read_into sectors_length sectors_read
  ata_pio_read_sectors_lem fuel first num dst d bytes rest enough =
      let b = wait_bsy_lem ports disk drive fuel d (omega (arith, drive.busy_bound d)) in
      let more = if u8 num == 0 then 256 * 256 else 0 in
      let all : 256 * (if u8 num == 0 then 256 else u8 num) ≡ 256 * u8 num + more = ground arith in
      let r =
        read_sectors_lem bytes fuel (u8 num) (256 * (u32 first % 2 ^ 28)) more 0 dst
          (ata_pio_command ports 0x20 (u32 first) (u8 num) b.after) enough (omega arith)
          (command_lem ports disk drive (u32 first) (u8 num) b.after (omega arith)
              (b.phase_same ∙ rest) b.free
            ∙ rw all refl) in
      rw (◌>>=◌, b.returns)
        (record {
          out = r.out;
          after = r.after;
          returns = r.returns;
          holds = λ i. elim (Bool-cases (ltb i (512 * u8 num))) [
            | inl within ↦
                let o : 2 * 0 + i ≡ i = omega arith in
                let sec : (2 * (256 * (u32 first % 2 ^ 28)) + i) / 512
                    ≡ u32 first % 2 ^ 28 + i / 512 =
                  omega arith in
                let off : (2 * (256 * (u32 first % 2 ^ 28)) + i) % 512 ≡ i % 512 = omega arith in
                rw (within, ← sec, ← off) (rw o at (r.inside i (ground arith)))
            | inr beyond ↦ rw beyond (r.outside i (ground arith))
          ];
          rests = λ pos.
              r.goes_on
              ∙ (let none_left : more ≡ 0 = ground arith in rw none_left (unfold transfer in refl));
        })
