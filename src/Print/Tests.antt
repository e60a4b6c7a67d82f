-- ===== src/Print/Tests.antt =====
-- The functions of print.c on a console.
use learning_osdev.Base.{ℕ, ◌%◌, ◌≡◌, arith, List, [], ◌∷◌, u8, u16, u32, u64, some, ap}
use learning_osdev.Str.{text}
use learning_osdev.Print.{Console, puts, putx8, putx16, putx32, putx64, putd}
use learning_osdev.Print.Text.{shown, puts_lem}
use learning_osdev.Print.Hex.{IsHex, putx_lem}
use learning_osdev.Print.Decimal.{IsDecimal, putd_lem}

abbrev console : Console
console = record {
  screen = record {
    vga_buffer = λ n. record { character = n % 256; colour = 7 };
    column_counter = 0;
    foreground = 7;
    background = 0;
  };
  serial = [];
}

abbrev hi : List ℕ
hi = b'h' ∷ b'i' ∷ []

puts_lem_example : puts 3 (text hi) console ≡ some (shown hi console)
puts_lem_example =
    puts_lem hi (text hi) 3 console (ground arith) (λ j le. ap (text hi) (omega arith))
      (omega arith)

putx_lem_example :
    IsHex 2 (u8 0xBEEF) console (putx8 0xBEEF console)
    × IsHex 4 (u16 0xBEEF) console (putx16 0xBEEF console)
    × IsHex 8 (u32 0xBEEF) console (putx32 0xBEEF console)
    × IsHex 16 (u64 0xBEEF) console (putx64 0xBEEF console)
putx_lem_example = putx_lem 0xBEEF console

putd_lem_example : IsDecimal 9075 console (putd 9075 console)
putd_lem_example = putd_lem 9075 console (omega arith)
