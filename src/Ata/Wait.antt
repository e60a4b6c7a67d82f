-- ===== src/Ata/Wait.antt =====
-- The waits of bootloader/cboot/src/ata.c, and the start of a command, on a drive.
use learning_osdev.Base.{
  ℕ, zero, suc, ◌+◌, ◌*◌, ◌/◌, ◌%◌, ◌^◌, ◌≤◌, ◌<◌, ◌≡◌, inl, inr, refl, ◌∙◌, arith, Bool-cases,
  Option, some, ◌==◌, if◌then◌else◌, u8,
}
use learning_osdev.Ports.{Ports}
use learning_osdev.Ustar.{Disk}
use learning_osdev.Ata.{ata_pio_wait_bsy, ata_pio_wait_drq, ata_pio_command}
use learning_osdev.Ata.Drive.{Registers, with_register, address, idle, transfer, IsDrive}

module _ {D : Type 0} (ports : Ports D) (disk : Disk) (drive : IsDrive ports disk) where
  -- A wait ends with the drive as it was, but not busy.
  pub record IsWaited (d : D) (result : Option D) : Type 0 where
    pub after : D
    pub returns : result ≡ some after
    pub free : drive.busy after ≡ 0
    pub registers_same : drive.registers after ≡ drive.registers d
    pub phase_same : drive.phase after ≡ drive.phase d

  pub wait_bsy_lem :
      (fuel : ℕ) (d : D) → drive.busy d < fuel → IsWaited d (ata_pio_wait_bsy ports fuel d)
  unfolding ata_pio_wait_bsy
  wait_bsy_lem zero d enough = absurd (omega arith)
  wait_bsy_lem (suc f) d enough =
      let s = drive.status_after d in
      elim (Bool-cases (drive.busy d == 0)) [
        | inl z ↦
            let free : drive.busy d ≡ 0 = ground arith in
            rw ((drive.status_free d free).0) (record {
              after = (ports.io_in8 0x1F7 d).1;
              returns = refl;
              free = omega (arith, s.2);
              registers_same = s.0;
              phase_same = s.1;
            })
        | inr nz ↦
            let more : 0 < drive.busy d = ground arith in
            let rest = wait_bsy_lem f (ports.io_in8 0x1F7 d).1 (omega (arith, s.2)) in
            rw (drive.status_busy d more) (record {
              after = rest.after;
              returns = rest.returns;
              free = rest.free;
              registers_same = rest.registers_same ∙ s.0;
              phase_same = rest.phase_same ∙ s.1;
            })
      ]

  pub wait_drq_lem :
      (fuel : ℕ) (d : D) → drive.busy d ≡ 0 → 0 < fuel → IsWaited d (ata_pio_wait_drq ports fuel d)
  unfolding ata_pio_wait_drq
  wait_drq_lem zero d free enough = absurd (omega arith)
  wait_drq_lem (suc f) d free enough =
      let s = drive.status_after d in
      rw ((drive.status_free d free).1) (record {
        after = (ports.io_in8 0x1F7 d).1;
        returns = refl;
        free = omega (arith, s.2);
        registers_same = s.0;
        phase_same = s.1;
      })

  record HasRegisters (r : Registers) (d : D) : Type 0 where
    registers_are : drive.registers d ≡ r
    is_idle : drive.phase d ≡ idle
    free : drive.busy d ≡ 0

  HasRegisters-out :
      {r : Registers} {d : D} (port v : ℕ)
      → 0x1F2 ≤ port
      → port ≤ 0x1F6
      → HasRegisters r d
      → HasRegisters (with_register port v r) (ports.io_out8 port v d)
  HasRegisters-out {d} port v lo hi before =
      let after = drive.register_out port v d lo hi before.is_idle before.free in
      record {
        registers_are = rw (← before.registers_are) (after.0);
        is_idle = after.1;
        free = after.2;
      }

  -- The six writes start the transfer of the sectors.
  pub command_lem :
      (first num : ℕ) (d : D)
      → num < 2 ^ 8
      → drive.phase d ≡ idle
      → drive.busy d ≡ 0
      → drive.phase (ata_pio_command ports 0x20 first num d)
        ≡ transfer (256 * (first % 2 ^ 28)) (256 * (if num == 0 then 256 else num))
  unfolding ata_pio_command with_register address
  command_lem first num d small rest free =
      let s0 : HasRegisters (drive.registers d) d = record {
        registers_are = refl;
        is_idle = rest;
        free = free;
      } in
      let s1 =
        HasRegisters-out 0x1F6 (0xE0 + first / 2 ^ 24 % 2 ^ 4) (omega arith) (omega arith) s0 in
      let s2 = HasRegisters-out 0x1F2 num (omega arith) (omega arith) s1 in
      let s3 = HasRegisters-out 0x1F3 (u8 first) (omega arith) (omega arith) s2 in
      let s4 = HasRegisters-out 0x1F4 (u8 (first / 2 ^ 8)) (omega arith) (omega arith) s3 in
      let s5 = HasRegisters-out 0x1F5 (u8 (first / 2 ^ 16)) (omega arith) (omega arith) s4 in
      let sum : (0xE0 + first / 2 ^ 24 % 2 ^ 4) % 2 ^ 4 * 2 ^ 24
            + u8 (first / 2 ^ 16) * 2 ^ 16
            + u8 (first / 2 ^ 8) * 2 ^ 8
            + u8 first
          ≡ first % 2 ^ 28 =
        omega arith in
      drive.read_out _ s5.is_idle s5.free (rw s5.registers_are (omega arith))
      ∙ rw (s5.registers_are, sum) refl
