-- ===== src/Ata/Drive.antt =====
-- An ATA drive behind the ports of bootloader/cboot/src/ata.c, as the standard describes reading
-- with 28 bits of address: what the code relies on of the drive.
use learning_osdev.Base.{
  ℕ, zero, suc, ◌+◌, ◌-◌, ◌*◌, ◌/◌, ◌%◌, ◌^◌, ◌≤◌, ◌<◌, ◌≡◌, ◌≢◌, ◌==◌, if◌then◌else◌,
}
use learning_osdev.Ports.{Ports}
use learning_osdev.Ustar.{Disk}

pub record Registers : Type 0 where
  pub device : ℕ
  pub count : ℕ
  pub low : ℕ
  pub mid : ℕ
  pub high : ℕ

-- The effect of a write to the port of a register.
unfoldable pub with_register : ℕ → ℕ → Registers → Registers
with_register port v r =
    if port == 0x1F2
    then record r { count = v }
    else if port == 0x1F3
    then record r { low = v }
    else if port == 0x1F4
    then record r { mid = v }
    else if port == 0x1F5
    then record r { high = v }
    else record r { device = v }

-- The registers hold the address of a sector in 28 bits; a count of 0 stands for 256.
unfoldable pub address : Registers → ℕ
address r = r.device % 2 ^ 4 * 2 ^ 24 + r.high * 2 ^ 16 + r.mid * 2 ^ 8 + r.low

abbrev pub sectors : Registers → ℕ
sectors r = if r.count == 0 then 256 else r.count

-- `reading next left`: the drive gives word `next` of the disk, and so many after it.
pub data Phase : Type 0 where
  idle : Phase
  reading : ℕ → ℕ → Phase

unfoldable pub transfer : ℕ → ℕ → Phase
transfer next zero = idle
transfer next (suc left) = reading next left

abbrev pub disk_word : Disk → ℕ → ℕ
disk_word disk n = disk (n / 256) (2 * (n % 256)) + 2 ^ 8 * disk (n / 256) (2 * (n % 256) + 1)

pub record IsDrive {D : Type 0} (ports : Ports D) (disk : Disk) : Type 0 where
  pub registers : D → Registers
  pub phase : D → Phase
  -- So many readings of the status, at most, still show the drive as busy.
  pub busy : D → ℕ
  pub limit : ℕ
  pub busy_bound : (d : D) → busy d ≤ limit
  pub status_busy : (d : D) → 0 < busy d → (ports.io_in8 0x1F7 d).0 / 2 ^ 7 % 2 ≡ 1
  -- A drive that is not busy shows so, and that it is ready.
  pub status_free :
      (d : D)
      → busy d ≡ 0
      → ((ports.io_in8 0x1F7 d).0 / 2 ^ 7 % 2 ≡ 0) × ((ports.io_in8 0x1F7 d).0 / 2 ^ 6 % 2 ≡ 1)
  pub status_after :
      (d : D)
      → (registers (ports.io_in8 0x1F7 d).1 ≡ registers d)
        × (phase (ports.io_in8 0x1F7 d).1 ≡ phase d)
        × (busy (ports.io_in8 0x1F7 d).1 ≤ busy d - 1)
  pub register_out :
      (port v : ℕ) (d : D)
      → 0x1F2 ≤ port
      → port ≤ 0x1F6
      → phase d ≡ idle
      → busy d ≡ 0
      → (registers (ports.io_out8 port v d) ≡ with_register port v (registers d))
        × (phase (ports.io_out8 port v d) ≡ idle)
        × (busy (ports.io_out8 port v d) ≡ 0)
  -- The command to read, with bit 6 of the device register for this form of address.
  pub read_out :
      (d : D)
      → phase d ≡ idle
      → busy d ≡ 0
      → (registers d).device / 2 ^ 6 % 2 ≡ 1
      → phase (ports.io_out8 0x1F7 0x20 d)
        ≡ transfer (256 * address (registers d)) (256 * sectors (registers d))
  -- The drive can be busy again after the last word of a sector.
  pub word_in :
      (next left : ℕ) (d : D)
      → phase d ≡ transfer next (suc left)
      → busy d ≡ 0
      → ((ports.io_in16 0x1F0 d).0 ≡ disk_word disk next)
        × (phase (ports.io_in16 0x1F0 d).1 ≡ transfer (next + 1) left)
        × (((next + 1) % 256 ≢ 0) → busy (ports.io_in16 0x1F0 d).1 ≡ 0)
