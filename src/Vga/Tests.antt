-- ===== src/Vga/Tests.antt =====
-- The functions of vga.c on a screen.
use learning_osdev.Base.{ℕ, ◌+◌, ◌*◌, ◌%◌, ◌≤◌, ◌<◌, ◌≡◌, ◌⊎◌, arith, List, [], ◌∷◌, length}
use learning_osdev.Str.{text}
use learning_osdev.Vga.{Screen, coloured, newline, draw_char, set_foreground, set_background}
use learning_osdev.Vga.Scroll.{newline_lem}
use learning_osdev.Vga.Draw.{IsScreen, draw_char-IsScreen, draw_text, draw_text_lem}
use learning_osdev.Vga.Colours.{colour_number, yellow, red, colours_lem}

abbrev screen : Screen
screen = record {
  vga_buffer = λ n. record { character = n % 256; colour = 7 };
  column_counter = 77;
  foreground = 7;
  background = 0;
}

newline_lem_example :
    ((row col : ℕ)
      → row < 24
      → col < 80
      → (newline screen).vga_buffer (80 * row + col) ≡ screen.vga_buffer (80 * (row + 1) + col))
    × ((col : ℕ) → col < 80 → (newline screen).vga_buffer (80 * 24 + col) ≡ coloured screen b' ')
    × ((n : ℕ) → 2000 ≤ n → (newline screen).vga_buffer n ≡ screen.vga_buffer n)
    × ((newline screen).column_counter ≡ 0)
    × ((newline screen).foreground ≡ screen.foreground)
    × ((newline screen).background ≡ screen.background)
newline_lem_example = newline_lem screen

draw_char-IsScreen_example :
    IsScreen (draw_char b'x' screen)
    × ((n : ℕ) → 2000 ≤ n → (draw_char b'x' screen).vga_buffer n ≡ screen.vga_buffer n)
    × ((draw_char b'x' screen).foreground ≡ screen.foreground)
    × ((draw_char b'x' screen).background ≡ screen.background)
draw_char-IsScreen_example = draw_char-IsScreen b'x' screen (omega arith)

abbrev abc : List ℕ
abc = b'a' ∷ b'b' ∷ b'c' ∷ []

draw_text_lem_example :
    ((k : ℕ)
      → k < length abc
      → (draw_text abc screen).vga_buffer (80 * 24 + 77 + k) ≡ coloured screen (text abc k))
    × ((n : ℕ)
        → (n < 80 * 24 + 77) ⊎ (80 * 24 + 77 + length abc ≤ n)
        → (draw_text abc screen).vga_buffer n ≡ screen.vga_buffer n)
    × ((draw_text abc screen).column_counter ≡ 80)
draw_text_lem_example = draw_text_lem abc screen (ground arith) (omega arith)

colours_lem_example :
    ((set_foreground 0x14 screen).foreground ≡ 0x10) × ((set_background 4 screen).background ≡ 0)
unfolding colour_number
colours_lem_example = colours_lem yellow red screen
