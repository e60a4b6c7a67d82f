-- ===== src/Vga/Draw.antt =====
-- draw_char of vga.c, and the colours that set_foreground and set_background leave.
use learning_osdev.Base.{
  ℕ, zero, suc, ◌+◌, ◌*◌, ◌≤◌, ◌<◌, ◌≡◌, ◌≢◌, ◌⊎◌, inl, inr, refl, arith, ◌==◌, leb, false,
  Bool-cases, List, [], ◌∷◌, length, ap, sym, ◌∙◌,
}
use learning_osdev.Vga.{
  Screen, put_cell, coloured, newline, draw_char, set_foreground, set_background,
}
use learning_osdev.Vga.Scroll.{newline_lem}
use learning_osdev.Str.{text}

-- A screen that draw_char keeps: the column is in the row or just behind it.
abbrev pub IsScreen : Screen → Type 0
IsScreen s = s.column_counter ≤ 80

-- draw_char keeps the column at most 80, writes to no cell outside the 25 rows, and keeps the
-- colours.
pub draw_char-IsScreen :
    (c : ℕ) (s : Screen)
    → IsScreen s
    → IsScreen (draw_char c s)
      × ((n : ℕ) → 2000 ≤ n → (draw_char c s).vga_buffer n ≡ s.vga_buffer n)
      × ((draw_char c s).foreground ≡ s.foreground)
      × ((draw_char c s).background ≡ s.background)
unfolding draw_char
draw_char-IsScreen c s ok = elim (Bool-cases (leb 80 s.column_counter)) [
  | inl full ↦ rw full (feed (newline_lem s))
  | inr room ↦ elim (Bool-cases (c == b'\n')) [
    | inl nl ↦ rw (room, nl) (feed (newline_lem s))
    | inr other ↦ elim (Bool-cases (c == b'\r')) [
      | inl cr ↦ rw (room, other, cr) (omega arith, λ n le. refl, refl, refl)
      | inr print ↦ rw (room, other, print) (ground arith, λ n le. ground arith, refl, refl)
    ]
  ]
]
  where
    feed :
        ((row col : ℕ)
            → row < 24
            → col < 80
            → (newline s).vga_buffer (80 * row + col) ≡ s.vga_buffer (80 * (row + 1) + col))
          × ((col : ℕ) → col < 80 → (newline s).vga_buffer (80 * 24 + col) ≡ coloured s b' ')
          × ((n : ℕ) → 2000 ≤ n → (newline s).vga_buffer n ≡ s.vga_buffer n)
          × ((newline s).column_counter ≡ 0)
          × ((newline s).foreground ≡ s.foreground)
          × ((newline s).background ≡ s.background)
        → IsScreen (newline s)
          × ((n : ℕ) → 2000 ≤ n → (newline s).vga_buffer n ≡ s.vga_buffer n)
          × ((newline s).foreground ≡ s.foreground)
          × ((newline s).background ≡ s.background)
    feed (a, b, out, col, fg, bg) = (omega arith, out, fg, bg)

-- Draws the characters of a text one after the other.
abbrev pub draw_text : List ℕ → Screen → Screen
draw_text [] s = s
draw_text (c ∷ cs) s = draw_text cs (draw_char c s)

abbrev pub IsPrinted : List ℕ → Type 0
IsPrinted [] = Unit {0}
IsPrinted (c ∷ cs) = (c ≢ b'\n') × (c ≢ b'\r') × IsPrinted cs

drawn :
    (c : ℕ) (s : Screen)
    → s.column_counter < 80
    → c ≢ b'\n'
    → c ≢ b'\r'
    → draw_char c s ≡ record s {
      vga_buffer = put_cell s.vga_buffer (80 * 24 + s.column_counter) (coloured s c);
      column_counter = s.column_counter + 1;
    }
unfolding draw_char
drawn c s lt nl cr =
    let room : leb 80 s.column_counter ≡ false = ground arith in
    let e : (c == b'\n') ≡ false = ground arith in
    let f : (c == b'\r') ≡ false = ground arith in rw (room, e, f) refl

abbrev Drawn : List ℕ → Screen → Screen → Type 0
Drawn xs s t =
    ((k : ℕ)
      → k < length xs
      → t.vga_buffer (80 * 24 + s.column_counter + k) ≡ coloured s (text xs k))
    × ((n : ℕ)
        → (n < 80 * 24 + s.column_counter) ⊎ (80 * 24 + s.column_counter + length xs ≤ n)
        → t.vga_buffer n ≡ s.vga_buffer n)
    × (t.column_counter ≡ s.column_counter + length xs)

draw_step :
    (c : ℕ) (cs : List ℕ) (s t : Screen)
    → t ≡ record s {
      vga_buffer = put_cell s.vga_buffer (80 * 24 + s.column_counter) (coloured s c);
      column_counter = s.column_counter + 1;
    }
    → s.column_counter + suc (length cs) ≤ 80
    → Drawn cs t (draw_text cs t)
    → Drawn (c ∷ cs) s (draw_text cs t)
unfolding text
draw_step c cs s t e fits (inside, outside, column) = (
  λ k lt. shown k lt,
  λ n h. outside n (ground (arith, column_next)) ∙ cell n ∙ ground arith,
  omega (arith, column_next),
)
  where
    column_next : t.column_counter ≡ s.column_counter + 1
    column_next = ap (λ (x : Screen). x.column_counter) e

    cell :
        (n : ℕ)
        → t.vga_buffer n ≡ put_cell s.vga_buffer (80 * 24 + s.column_counter) (coloured s c) n
    cell n = ap (λ (x : Screen). x.vga_buffer n) e

    same_colour : (x : ℕ) → coloured t x ≡ coloured s x
    same_colour x = ap (λ (y : Screen). coloured y x) e

    shown :
        (k : ℕ)
        → k < suc (length cs)
        → (draw_text cs t).vga_buffer (80 * 24 + s.column_counter + k)
          ≡ coloured s (text (c ∷ cs) k)
    shown zero lt =
        outside (80 * 24 + s.column_counter + 0) (inl (omega (arith, column_next)))
        ∙ cell (80 * 24 + s.column_counter + 0)
        ∙ ground arith
    shown (suc k) lt =
        let e : 80 * 24 + t.column_counter + k ≡ 80 * 24 + s.column_counter + suc k =
          omega (arith, column_next) in
        ap (draw_text cs t).vga_buffer (sym e) ∙ inside k (omega arith) ∙ same_colour (text cs k)

-- A text without line feeds and carriage returns that fits in the rest of the last row appears
-- there from the column on, in the colours of the screen, no other cell changes, and the
-- column moves behind it.
pub draw_text_lem :
    (xs : List ℕ) (s : Screen)
    → IsPrinted xs
    → s.column_counter + length xs ≤ 80
    → ((k : ℕ)
        → k < length xs
        → (draw_text xs s).vga_buffer (80 * 24 + s.column_counter + k) ≡ coloured s (text xs k))
      × ((n : ℕ)
          → (n < 80 * 24 + s.column_counter) ⊎ (80 * 24 + s.column_counter + length xs ≤ n)
          → (draw_text xs s).vga_buffer n ≡ s.vga_buffer n)
      × ((draw_text xs s).column_counter ≡ s.column_counter + length xs)
unfolding text
draw_text_lem [] s p fits = (λ k lt. absurd (omega arith), λ n h. refl, omega arith)
draw_text_lem (c ∷ cs) s (nl, cr, p) fits =
    draw_step c cs s (draw_char c s) (drawn c s (omega arith) nl cr) fits
      (draw_text_lem cs (draw_char c s) p (rw (drawn c s (omega arith) nl cr) (omega arith)))

-- set_foreground makes the foreground black for each of the 16 colours of the text mode, and
-- set_background makes the background black for every colour.
pub colours_lost :
    (fg bg : ℕ) (s : Screen)
    → fg < 16
    → ((set_foreground fg s).foreground ≡ 0) × ((set_background bg s).background ≡ 0)
unfolding set_foreground set_background
colours_lost fg bg s lt = (omega arith, omega arith)
