-- ===== src/Vga/Colours.antt =====
-- The colours of bootloader/cboot/include/vga.h, and what the functions of
-- bootloader/cboot/src/vga.c keep of them.
use learning_osdev.Base.{ℕ, ◌≡◌, refl, arith, Bool, true, false, if◌then◌else◌}
use learning_osdev.Vga.{Screen, set_foreground, set_background}

pub data BiosColours : Type 0 where
  black blue green cyan red magenta brown light_gray dark_gray light_blue : BiosColours
  light_green light_cyan light_red light_magenta yellow white : BiosColours

-- The number of a colour.
unfoldable pub colour_number : BiosColours → ℕ
colour_number black = 0x0
colour_number blue = 0x1
colour_number green = 0x2
colour_number cyan = 0x3
colour_number red = 0x4
colour_number magenta = 0x5
colour_number brown = 0x6
colour_number light_gray = 0x7
colour_number dark_gray = 0x8
colour_number light_blue = 0x9
colour_number light_green = 0x10
colour_number light_cyan = 0x11
colour_number light_red = 0x12
colour_number light_magenta = 0x13
colour_number yellow = 0x14
colour_number white = 0x15

-- The colours from light_green on.
abbrev pub is_late : BiosColours → Bool
is_late light_green = true
is_late light_cyan = true
is_late light_red = true
is_late light_magenta = true
is_late yellow = true
is_late white = true
is_late black = false
is_late blue = false
is_late green = false
is_late cyan = false
is_late red = false
is_late magenta = false
is_late brown = false
is_late light_gray = false
is_late dark_gray = false
is_late light_blue = false

foreground-kept :
    (c : BiosColours) (s : Screen)
    → (set_foreground (colour_number c) s).foreground ≡ (if is_late c then 0x10 else 0)
unfolding set_foreground colour_number
foreground-kept black s = refl
foreground-kept blue s = refl
foreground-kept green s = refl
foreground-kept cyan s = refl
foreground-kept red s = refl
foreground-kept magenta s = refl
foreground-kept brown s = refl
foreground-kept light_gray s = refl
foreground-kept dark_gray s = refl
foreground-kept light_blue s = refl
foreground-kept light_green s = refl
foreground-kept light_cyan s = refl
foreground-kept light_red s = refl
foreground-kept light_magenta s = refl
foreground-kept yellow s = refl
foreground-kept white s = refl

-- Of the colours of vga.h, set_foreground makes the first ten black, and each of those from
-- light_green on the number 0x10; set_background makes every colour black.
pub colours_lem :
    (fg bg : BiosColours) (s : Screen)
    → ((set_foreground (colour_number fg) s).foreground ≡ (if is_late fg then 0x10 else 0))
      × ((set_background (colour_number bg) s).background ≡ 0)
unfolding set_background
colours_lem fg bg s = (foreground-kept fg s, omega arith)
