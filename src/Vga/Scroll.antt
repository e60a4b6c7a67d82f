-- ===== src/Vga/Scroll.antt =====
-- newline and clear_screen of vga.c, as functions of the rows and columns of the screen.
use learning_osdev.Base.{
  ℕ, zero, suc, ◌+◌, ◌-◌, ◌*◌, ◌≤◌, ◌<◌, ◌≡◌, inl, inr, refl, arith, ◌==◌, ltb, leb, ◌&&◌,
  if◌then◌else◌, true, false, Bool-cases, ◌∙◌,
}
use learning_osdev.Vga.{
  VgaChar, Cells, Screen, put_cell, coloured, shift_row, shift_rows, fill_row, fill_rows, newline,
  clear_screen,
}

-- A cell is copied from the row below, before the cells from there to `hi`.
shift_step :
    (c hi n : ℕ) (b : Cells)
    → c < hi
    → hi ≤ c + 80
    → (if leb (c + 1) n && ltb n hi
        then put_cell b c (b (c + 80)) (n + 80)
        else put_cell b c (b (c + 80)) n)
      ≡ (if leb c n && ltb n hi then b (n + 80) else b n)
shift_step c hi n b lt near = elim (Bool-cases (n == c)) [
  | inl e ↦ let same : n ≡ c = ground arith in rw same (ground arith)
  | inr ne ↦ ground arith
]

-- The loop over a row at column `j`: the columns from `j` on are copied from the row below.
shift_row-get :
    (left j i : ℕ) (b : Cells) (n : ℕ)
    → 1 ≤ i
    → j + left ≡ 80
    → shift_row left j i b n
      ≡ (if leb (80 * (i - 1) + j) n && ltb n (80 * i) then b (n + 80) else b n)
unfolding shift_row
shift_row-get zero j i b n pos e =
    let out : (leb (80 * (i - 1) + j) n && ltb n (80 * i)) ≡ false = ground arith in rw out refl
shift_row-get (suc left) j i b n pos e =
    let c1 : 80 * (i - 1) + (j + 1) ≡ 80 * (i - 1) + j + 1 = omega arith in
    let c2 : 80 * i + j ≡ 80 * (i - 1) + j + 80 = omega arith in
    shift_row-get left (j + 1) i (put_cell b (80 * (i - 1) + j) (b (80 * i + j))) n pos
      (omega arith)
    ∙ rw (c1, c2) (shift_step (80 * (i - 1) + j) (80 * i) n b (omega arith) (omega arith))

-- The loop over the rows at row `i`: the rows from `i` on move up by one.
shift_rows-get :
    (left i : ℕ) (b : Cells) (n : ℕ)
    → 1 ≤ i
    → i + left ≡ 25
    → shift_rows left i b n ≡ (if leb (80 * (i - 1)) n && ltb n (80 * 24) then b (n + 80) else b n)
unfolding shift_rows
shift_rows-get zero i b n pos e =
    let out : (leb (80 * (i - 1)) n && ltb n (80 * 24)) ≡ false = ground arith in rw out refl
shift_rows-get (suc left) i b n pos e =
    shift_rows-get left (i + 1) (shift_row 80 0 i b) n (omega arith) (omega arith)
    ∙ rw (shift_row-get 80 0 i b n pos refl, shift_row-get 80 0 i b (n + 80) pos refl)
        (ground arith)

-- The loop that fills a row at column `j`.
fill_row-get :
    (left j i : ℕ) (c : VgaChar) (b : Cells) (n : ℕ)
    → j + left ≡ 80
    → fill_row left j i c b n ≡ (if leb (80 * i + j) n && ltb n (80 * i + 80) then c else b n)
unfolding fill_row
fill_row-get zero j i c b n e =
    let out : (leb (80 * i + j) n && ltb n (80 * i + 80)) ≡ false = ground arith in rw out refl
fill_row-get (suc left) j i c b n e =
    fill_row-get left (j + 1) i c (put_cell b (80 * i + j) c) n (omega arith) ∙ ground arith

fill_rows-get :
    (left i : ℕ) (c : VgaChar) (b : Cells) (n : ℕ)
    → i + left ≡ 25
    → fill_rows left i c b n ≡ (if leb (80 * i) n && ltb n 2000 then c else b n)
unfolding fill_rows
fill_rows-get zero i c b n e =
    let out : (leb (80 * i) n && ltb n 2000) ≡ false = ground arith in rw out refl
fill_rows-get (suc left) i c b n e =
    fill_rows-get left (i + 1) c (fill_row 80 0 i c b) n (omega arith)
    ∙ rw (fill_row-get 80 0 i c b n refl) (ground arith)

moved :
    (s : Screen) (row col : ℕ)
    → row < 24
    → col < 80
    → fill_row 80 0 24 (coloured s b' ') (shift_rows 24 1 s.vga_buffer) (80 * row + col)
      ≡ s.vga_buffer (80 * (row + 1) + col)
moved s row col lt lt' =
    let e : 80 * (row + 1) + col ≡ 80 * row + col + 80 = omega arith in
    let above : (leb (80 * 24 + 0) (80 * row + col) && ltb (80 * row + col) (80 * 24 + 80))
        ≡ false =
      ground arith in
    let inside : (leb (80 * (1 - 1)) (80 * row + col) && ltb (80 * row + col) (80 * 24)) ≡ true =
      ground arith in
    rw
      (
        fill_row-get 80 0 24 (coloured s b' ') (shift_rows 24 1 s.vga_buffer) (80 * row + col) refl,
        above,
        shift_rows-get 24 1 s.vga_buffer (80 * row + col) (omega arith) refl,
        inside,
        e,
      )
      refl

-- Every row moves up by one, the last row becomes blank in the colours of the screen, no cell
-- outside the 25 rows changes, and the next character goes to column 0. The colours stay.
pub newline_lem :
    (s : Screen)
    → ((row col : ℕ)
        → row < 24
        → col < 80
        → (newline s).vga_buffer (80 * row + col) ≡ s.vga_buffer (80 * (row + 1) + col))
      × ((col : ℕ) → col < 80 → (newline s).vga_buffer (80 * 24 + col) ≡ coloured s b' ')
      × ((n : ℕ) → 2000 ≤ n → (newline s).vga_buffer n ≡ s.vga_buffer n)
      × ((newline s).column_counter ≡ 0)
      × ((newline s).foreground ≡ s.foreground)
      × ((newline s).background ≡ s.background)
unfolding newline
newline_lem s = (
  λ row col lt lt'. moved s row col lt lt',
  λ col lt.
      fill_row-get 80 0 24 (coloured s b' ') (shift_rows 24 1 s.vga_buffer) (80 * 24 + col) refl
      ∙ ground arith,
  λ n le.
      fill_row-get 80 0 24 (coloured s b' ') (shift_rows 24 1 s.vga_buffer) n refl
      ∙ rw (shift_rows-get 24 1 s.vga_buffer n (omega arith) refl) (ground arith),
  refl,
  refl,
  refl,
)

-- clear_screen makes each of the 2000 cells blank in the colours of the screen, and changes no
-- other cell. It leaves the colours and the column of the next character.
pub clear_screen_lem :
    (s : Screen)
    → ((n : ℕ) → n < 2000 → (clear_screen s).vga_buffer n ≡ coloured s b' ')
      × ((n : ℕ) → 2000 ≤ n → (clear_screen s).vga_buffer n ≡ s.vga_buffer n)
      × ((clear_screen s).column_counter ≡ s.column_counter)
      × ((clear_screen s).foreground ≡ s.foreground)
      × ((clear_screen s).background ≡ s.background)
unfolding clear_screen
clear_screen_lem s = (
  λ n lt. fill_rows-get 25 0 (coloured s b' ') s.vga_buffer n refl ∙ ground arith,
  λ n le. fill_rows-get 25 0 (coloured s b' ') s.vga_buffer n refl ∙ ground arith,
  refl,
  refl,
  refl,
)
