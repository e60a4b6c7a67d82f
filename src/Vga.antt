-- ===== src/Vga.antt =====
-- bootloader/cboot/src/vga.c: the text screen of 25 rows of 80 cells. The globals of the file are
-- the fields of a record.
pub mod Scroll
pub mod Colours
pub mod Draw
mod Tests
use learning_osdev.Base.{
  ℕ, zero, suc, ◌+◌, ◌-◌, ◌*◌, ◌/◌, ◌%◌, ◌==◌, if◌then◌else◌, u8, leb, bit_or,
}

pub record VgaChar : Type 0 where
  pub character : ℕ
  pub colour : ℕ

abbrev pub vga_rows : ℕ
vga_rows = 25

abbrev pub vga_cols : ℕ
vga_cols = 80

-- `vga_buffer` by the index of a cell.
abbrev pub Cells : Type 0
Cells = ℕ → VgaChar

pub record Screen : Type 0 where
  pub vga_buffer : Cells
  pub column_counter : ℕ
  pub foreground : ℕ
  pub background : ℕ

abbrev pub put_cell : Cells → ℕ → VgaChar → Cells
put_cell b i c j = if j == i then c else b j

-- A character in the colours of the screen.
abbrev pub coloured : Screen → ℕ → VgaChar
coloured s c = record { character = c; colour = u8 (bit_or s.foreground s.background) }

-- The inner loop of newline for row `i`, at column `j`, with so many columns left.
unfoldable pub shift_row : ℕ → ℕ → ℕ → Cells → Cells
shift_row zero j i b = b
shift_row (suc left) j i b =
    shift_row left (j + 1) i (put_cell b (vga_cols * (i - 1) + j) (b (vga_cols * i + j)))

-- The outer loop at row `i`, with so many rows left.
unfoldable pub shift_rows : ℕ → ℕ → Cells → Cells
shift_rows zero i b = b
shift_rows (suc left) i b = shift_rows left (i + 1) (shift_row vga_cols 0 i b)

-- The loop that fills row `i` from column `j` on.
unfoldable pub fill_row : ℕ → ℕ → ℕ → VgaChar → Cells → Cells
fill_row zero j i c b = b
fill_row (suc left) j i c b = fill_row left (j + 1) i c (put_cell b (vga_cols * i + j) c)

-- The outer loop of clear_screen at row `i`.
unfoldable pub fill_rows : ℕ → ℕ → VgaChar → Cells → Cells
fill_rows zero i c b = b
fill_rows (suc left) i c b = fill_rows left (i + 1) c (fill_row vga_cols 0 i c b)

unfoldable pub newline : Screen → Screen
newline s = record s {
  column_counter = 0;
  vga_buffer = fill_row vga_cols 0 24 (coloured s b' ') (shift_rows (vga_rows - 1) 1 s.vga_buffer);
}

unfoldable pub clear_screen : Screen → Screen
clear_screen s = record s { vga_buffer = fill_rows vga_rows 0 (coloured s b' ') s.vga_buffer }

-- `colour & 0xF0`
unfoldable pub set_foreground : ℕ → Screen → Screen
set_foreground colour s = record s { foreground = colour / 16 % 16 * 16 }

-- `(colour << 4) & 0x0F`
unfoldable pub set_background : ℕ → Screen → Screen
set_background colour s = record s { background = colour * 16 % 16 }

unfoldable pub draw_char : ℕ → Screen → Screen
draw_char c s =
    if leb vga_cols s.column_counter
    then newline s
    else if c == b'\n'
    then newline s
    else if c == b'\r'
    then record s { column_counter = 0 }
    else record s {
      vga_buffer = put_cell s.vga_buffer (vga_cols * 24 + s.column_counter) (coloured s c);
      column_counter = s.column_counter + 1;
    }
