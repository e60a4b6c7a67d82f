-- ===== src/Mem/Set.antt =====
-- memset of bootloader/cboot/src/mem.c: what each byte is afterwards.
use learning_osdev.Base.{
  ℕ, ◌+◌, ◌-◌, ◌*◌, ◌/◌, ◌%◌, ◌^◌, ◌≤◌, ◌<◌, ◌≡◌, ◌⊎◌, arith, ◌&&◌, not, some, Option, ltb, leb,
  ◌==◌, if◌then◌else◌, u64, ◌>>=◌,
}
use learning_osdev.Mem.{Memory, memset_words, memset_bytes, memset}
use learning_osdev.Mem.Words.{IsBytes}
use learning_osdev.Mem.Fill.{
  IsAligned, IsWordsSet, IsBytesSet, memset_align_lem, memset_words_lem, memset_bytes_lem,
}

-- The byte that memset leaves at `a` in its range: the words in the middle of the range, between
-- the first and the last multiple of 8, hold `val` in their lowest byte only.
abbrev pub memset_byte : ℕ → ℕ → ℕ → ℕ → ℕ
memset_byte dst val size a =
    if leb ((dst + 7) / 8 * 8) a && (ltb a ((dst + size - 1) / 8 * 8) && not (a % 8 == 0))
    then 0
    else val

-- `result` is a normal end of memset, with each byte of the range as `memset_byte` says and every
-- other byte unchanged.
pub record IsMemset (dst val size : ℕ) (m : Memory) (result : Option Memory) : Type 0 where
  pub out : Memory
  pub returns : result ≡ some out
  pub inside : (a : ℕ) → dst ≤ a → a < dst + size → out a ≡ memset_byte dst val size a
  pub outside : (a : ℕ) → (a < dst) ⊎ (dst + size ≤ a) → out a ≡ m a

pub IsMemset-IsBytes :
    {dst val size : ℕ} {m : Memory} {result : Option Memory}
    → val < 2 ^ 8
    → (c : IsMemset dst val size m result) → IsBytes m
    → IsBytes c.out
IsMemset-IsBytes small c bytes a = ground (arith, small, c.inside a, c.outside a, bytes a)

module _ (dst val size : ℕ) (m : Memory) (small : val < 2 ^ 8)
    (fits : dst + size + 8 < 2 ^ 64) where
  -- The three loops one after the other.
  IsMemset-join :
      {r1 r2 : Option (ℕ × Memory)} {r3 : Option Memory}
      (first : IsAligned val (dst + size) small fits dst m r1)
      (words : IsWordsSet val (dst + size) small fits first.stop first.out r2)
      (last : IsBytesSet val (dst + size) small fits words.stop words.out r3)
      → IsMemset dst val size m r3
  IsMemset-join first words last = record {
    out = last.out;
    returns = last.returns;
    inside = λ a lo hi. ground (
      arith,
      first.above,
      words.above,
      first.near,
      first.aligned,
      words.aligned,
      words.last,
      words.first,
      first.filled.inside a,
      words.filled.inside a,
      words.filled.outside a,
      last.filled.inside a,
      last.filled.outside a,
    );
    outside = λ a h. ground (
      arith,
      first.above,
      first.below,
      words.above,
      words.below,
      first.filled.outside a,
      words.filled.outside a,
      last.filled.outside a,
    );
  }

  IsMemset-rest :
      {r1 : Option (ℕ × Memory)} (first : IsAligned val (dst + size) small fits dst m r1)
      → IsMemset dst val size m (do
        (q, m2) ← memset_words (size + 1) val (dst + size) first.stop first.out
        memset_bytes (size + 1) val (dst + size) q m2)
  IsMemset-rest first = rest-of (
      memset_words_lem val (dst + size) small fits (size + 1) first.stop first.out first.below
        first.aligned (omega (arith, first.above)))
    where
      rest-of :
          {r2 : Option (ℕ × Memory)}
          (words : IsWordsSet val (dst + size) small fits first.stop first.out r2)
          → IsMemset dst val size m
              (r2 >>= λ (q, m2). memset_bytes (size + 1) val (dst + size) q m2)
      rest-of words = rw words.returns (
          IsMemset-join first words (
            memset_bytes_lem val (dst + size) small fits (size + 1) words.stop words.out words.below
              (omega (arith, first.above, words.above))))

  -- memset returns, sets every byte of its range and no other; a byte of the range that lies in the
  -- aligned middle part, but not at a multiple of 8, is set to 0 and every other one to `val`.
  pub memset_lem : IsMemset dst val size m (memset dst val size m)
  unfolding memset
  memset_lem =
      let e : u64 (dst + size) ≡ dst + size = omega arith in
      let first =
        memset_align_lem val (dst + size) small fits (size + 1) dst m (omega arith) (omega arith) in
      rw (e, first.returns) (IsMemset-rest first)
