-- ===== src/Boot/Main.antt =====
-- cboot_main of bootloader/cboot/src/main.c as a whole, on a machine without room or a file for the
-- kernel.
use learning_osdev.Base.{
  ℕ, ◌^◌, ◌<◌, ◌≡◌, ◌∙◌, refl, ap, some, none, List, ◌++◌, codes, Option, get_elem?,
}
use learning_osdev.Str.{Bytes}
use learning_osdev.Print.Text.{shown}
use learning_osdev.Print.Printer.{shown-append}
use learning_osdev.Ports.{Ports}
use learning_osdev.Serial.{init_serial}
use learning_osdev.Interrupts.{setup_interrupts}
use learning_osdev.Interrupts.Handlers.{Handler}
use learning_osdev.Interrupts.Gates.{vectors, IsGate, setup_interrupts_lem}
use learning_osdev.Paging.{Paging}
use learning_osdev.Paging.Invariant.{Owner}
use learning_osdev.Paging.Physical.Steps.{test_text}
use learning_osdev.Bios.{BiosMemoryRegion}
use learning_osdev.Ustar.{Disk}
use learning_osdev.Ustar.Archive.{Entry, IsSmall, find_contents}
use learning_osdev.Gpt.{starting_lba}
use learning_osdev.Serial.Uart.{divisor_latch, IsUart}
use learning_osdev.Serial.Line.{init_serial_lem}
use learning_osdev.Base.{drop, drop-append, length, true, false, arith, ◌≢◌, ◌==◌, ◌+◌}
use learning_osdev.Print.{Console}
use learning_osdev.Boot.Sent.{on_wire, IsWritten, serial_write_bytes-IsWritten}
use learning_osdev.Boot.Room.{HasSpace, space-low, space-is_backed}
use learning_osdev.Boot.Loaded.{kernel_memory, kernel_memory-inside}
use learning_osdev.Boot.Load.{HasElfSignature, load_kernel-not_elf}
use learning_osdev.Boot.{
  code_space, serial_write_bytes, Outcome, halted, Machine, kernel_path, load_kernel, boot,
  cboot_main,
}
use learning_osdev.Boot.Steps.{told}
use learning_osdev.Boot.Loaded.{cleared_memory}
use learning_osdev.Boot.Load.{space_in, load_kernel-no_file}
use learning_osdev.Boot.Prepare.{partition, preface, file_text, IsMachine, IsPrepared, boot_lem}

-- What is printed before the loads.
abbrev pub prepared_text :
    List BiosMemoryRegion → Disk → Bytes → List (List ℕ) → List Entry → List ℕ
prepared_text rs disk stack names es = (preface rs disk stack names ++ test_text 0) ++ file_text es

-- The serial line works: the chip gives the test byte back as it is, its divisor latch is off, and
-- each wait for it ends within the fuel.
pub record HasLine {D : Type 0} {ports : Ports D} {echo : ℕ → ℕ} (uart : IsUart ports echo)
    (fuel : ℕ) (d : D) : Type 0 where
  pub sound : echo 0xAE ≡ 0xAE
  pub latch : divisor_latch (uart.registers d) ≡ false
  pub prompt : uart.limit < fuel

module _ {D : Type 0} (ports : Ports D) (echo : ℕ → ℕ) (uart : IsUart ports echo)
    (address : Handler → ℕ) (addresses : (h : Handler) → address h < 2 ^ 64) (base fuel : ℕ)
    (disk : Disk) (stack : Bytes) {own : Owner} (m : Machine D) (rs : List BiosMemoryRegion)
    (names : List (List ℕ)) (es : List Entry)
    (x : IsMachine fuel disk stack own m.paging rs names es)
    (serial_line : HasLine uart fuel m.device) where
  -- `result` is an end with the outcome `o` and the memory and tables of `p`: the exceptions have
  -- their gates, and `text` is on the screen and has been sent by the chip since init_serial.
  pub record IsEnd (o : Outcome) (p : Paging) (text : List ℕ)
      (result : Option (Outcome × Machine D)) : Type 0 where
    pub after : Machine D
    pub returns : result ≡ some (o, after)
    pub state : after.paging ≡ p
    pub gates :
        (v : ℕ) (h : Handler) → get_elem? vectors v ≡ some h → IsGate (address h) (after.idt v)
    pub register : after.idtr ≡ record { limit = 511; base = base }
    pub sent : uart.sent after.device ≡ uart.sent (init_serial ports m.device).1 ++ on_wire text
    pub printed : after.paging.console ≡ shown text m.paging.console

  abbrev pub prepared :
      IsPrepared fuel disk stack m.paging rs names es (boot fuel disk stack m.paging)
  prepared = boot_lem fuel disk stack m.paging rs names es x

  -- The chip after init_serial takes every text.
  line-IsWritten :
      (text : List ℕ)
      → IsWritten ports echo uart text
          (init_serial ports m.device).1
          (serial_write_bytes ports fuel text (init_serial ports m.device).1)
  line-IsWritten text =
      let set = init_serial_lem ports echo uart m.device serial_line.latch in
      let e : (echo 0xAE == 0xAE) ≡ true = rw serial_line.sound refl in
      serial_write_bytes-IsWritten ports echo uart fuel text (init_serial ports m.device).1
        (rw set.line refl) (rw (set.line, e) refl) serial_line.prompt

  pub cboot_main-IsEnd :
      (o : Outcome) (p : Paging) (text : List ℕ)
      → load_kernel fuel disk (starting_lba (partition disk stack names)) prepared.after
        ≡ some (o, p)
      → p.console ≡ shown text prepared.after.console
      → IsEnd o p
          (prepared_text rs disk stack names es ++ text)
          (cboot_main ports address base fuel disk stack m)
  unfolding cboot_main
  cboot_main-IsEnd o p text loads e =
      let all = prepared_text rs disk stack names es ++ text in
      let shown_all : p.console ≡ shown all m.paging.console =
        e
        ∙ ap (shown text) prepared.printed
        ∙ shown-append (prepared_text rs disk stack names es) text m.paging.console in
      let bytes : drop (length m.paging.console.serial) p.console.serial ≡ all =
        ap (λ (k : Console). drop (length m.paging.console.serial) k.serial) shown_all
        ∙ drop-append m.paging.console.serial all in
      let w = line-IsWritten all in
      rw (cboot_main, prepared.runs, loads, bytes, w.returns)
        (record {
          after = record {
            paging = p;
            idt = (setup_interrupts address base m.idt).0;
            idtr = (setup_interrupts address base m.idt).1;
            device = w.after;
          };
          returns = refl;
          state = refl;
          gates = λ v h at. (setup_interrupts_lem address addresses base m.idt).0 v h at;
          register = (setup_interrupts_lem address addresses base m.idt).2;
          sent = w.sent_after;
          printed = shown_all;
        })

  module _ (r : BiosMemoryRegion) (space : HasSpace m.paging rs r) (small : IsSmall es) where
    abbrev low : r.base_address < 2 ^ 46
    low = omega (arith, space-low fuel disk stack m.paging rs names es x r space)

    -- From a machine as it is left to cboot_main with a working serial line, where the region for
    -- the kernel lies in the gigabytes that the free memory of the map fills and the archive has no
    -- file /sys/kernel.elf, cboot_main ends: it has set up the exceptions, printed what it found and
    -- that it cannot load the file, and halts with the space cleared.
    pub cboot_main-no_file :
        find_contents kernel_path 0 es ≡ none
        → IsEnd halted
            (told
              ((codes "Loading kernel\n" ++ codes "Error loading kernel file") ++ codes "Halting")
              (record prepared.after { mem = cleared_memory (space_in r) prepared.after.mem }))
            (prepared_text rs disk stack names es
              ++ ((codes "Loading kernel\n" ++ codes "Error loading kernel file")
                  ++ codes "Halting"))
            (cboot_main ports address base fuel disk stack m)
    cboot_main-no_file missing =
        cboot_main-IsEnd halted _
          ((codes "Loading kernel\n" ++ codes "Error loading kernel file") ++ codes "Halting")
          (load_kernel-no_file fuel disk (starting_lba (partition disk stack names)) prepared.after
            rs prepared.map x.map_enough r space.chosen low
            (space-is_backed fuel disk stack m.paging rs names es x r space) es x.archive small
            x.archive_enough missing)
          refl

    -- From a machine as it is left to cboot_main with a working serial line, where the region for
    -- the kernel lies in the gigabytes that the free memory of the map fills and the file
    -- /sys/kernel.elf has a byte but, read into the space, does not begin with the signature,
    -- cboot_main ends: it has set up the exceptions, printed what it found and that the signature
    -- does not match, and halts with the file in the space.
    pub cboot_main-not_elf :
        (seeker size : ℕ)
        → find_contents kernel_path 0 es ≡ some (seeker, size)
        → size ≢ 0
        → ¬ HasElfSignature
            (kernel_memory disk
              (seeker + starting_lba (partition disk stack names))
              size
              (space_in r)
              m.paging.mem)
            (space_in r + code_space)
        → IsEnd halted
            (told
              (((codes "Loading kernel\n" ++ codes "Loaded Kernel\n")
                  ++ codes "ERR: ELF signature not matching\n")
                ++ codes "Halting")
              (record prepared.after {
                mem =
                    kernel_memory disk
                      (seeker + starting_lba (partition disk stack names))
                      size
                      (space_in r)
                      prepared.after.mem;
              }))
            (prepared_text rs disk stack names es
              ++ (((codes "Loading kernel\n" ++ codes "Loaded Kernel\n")
                    ++ codes "ERR: ELF signature not matching\n")
                  ++ codes "Halting"))
            (cboot_main ports address base fuel disk stack m)
    cboot_main-not_elf seeker size found nonempty other =
        let first = seeker + starting_lba (partition disk stack names) in
        cboot_main-IsEnd halted _
          (((codes "Loading kernel\n" ++ codes "Loaded Kernel\n")
              ++ codes "ERR: ELF signature not matching\n")
            ++ codes "Halting")
          (load_kernel-not_elf fuel disk (starting_lba (partition disk stack names)) prepared.after
            rs prepared.map x.map_enough r space.chosen low
            (space-is_backed fuel disk stack m.paging rs names es x r space) es x.archive small
            x.archive_enough seeker size found nonempty
            (λ sig. other (λ j lt.
              kernel_memory-inside disk first size (space_in r) m.paging.mem prepared.after.mem
                (space_in r + code_space + j) (omega arith) (omega arith)
              ∙ sig j lt)))
          refl
