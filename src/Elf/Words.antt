-- ===== src/Elf/Words.antt =====
-- What the code reads of an executable depends only on the bytes there.
use learning_osdev.Base.{ℕ, ◌+◌, ◌≤◌, ◌<◌, ◌≡◌, arith}
use learning_osdev.Mem.{Memory}
use learning_osdev.Mem.Words.{load64-cong}
use learning_osdev.Elf.{load16, load32, program_header}

pub load16-cong :
    (m n : Memory) (p : ℕ) → ((a : ℕ) → p ≤ a → a < p + 2 → m a ≡ n a) → load16 m p ≡ load16 n p
unfolding load16
load16-cong m n p h =
    omega (arith, h p (omega arith) (omega arith), h (p + 1) (omega arith) (omega arith))

pub load32-cong :
    (m n : Memory) (p : ℕ) → ((a : ℕ) → p ≤ a → a < p + 4 → m a ≡ n a) → load32 m p ≡ load32 n p
unfolding load32
load32-cong m n p h = omega (
  arith,
  h p (omega arith) (omega arith),
  h (p + 1) (omega arith) (omega arith),
  h (p + 2) (omega arith) (omega arith),
  h (p + 3) (omega arith) (omega arith),
)

-- A program header is its 56 bytes.
pub program_header-cong :
    (m n : Memory) (p : ℕ)
    → ((a : ℕ) → p ≤ a → a < p + 56 → m a ≡ n a)
    → program_header m p ≡ program_header n p
unfolding program_header
program_header-cong m n p h = rw (
  load32-cong m n p (λ a lo hi. h a lo (omega arith)),
  load64-cong m n (p + 8) (λ a lo hi. h a (omega arith) (omega arith)),
  load64-cong m n (p + 16) (λ a lo hi. h a (omega arith) (omega arith)),
  load64-cong m n (p + 24) (λ a lo hi. h a (omega arith) (omega arith)),
  load64-cong m n (p + 32) (λ a lo hi. h a (omega arith) (omega arith)),
  load64-cong m n (p + 40) (λ a lo hi. h a (omega arith) (omega arith)),
  load64-cong m n (p + 48) (λ a lo hi. h a (omega arith) (omega arith)),
)
