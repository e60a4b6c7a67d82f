-- ===== src/Mem/Copy.antt =====
-- memcpy of bootloader/cboot/src/mem.c between ranges that do not overlap.
use learning_osdev.Base.{
  ℕ, zero, suc, ◌+◌, ◌-◌, ◌%◌, ◌^◌, ◌≤◌, ◌<◌, ◌≡◌, ◌⊎◌, refl, arith, Bool-cases, inl, inr, ◌&&◌,
  not, some, Option, ltb, ◌==◌, u64, ◌>>=◌, subst,
}
use learning_osdev.Mem.{
  Memory, store8, load64, store64, memcpy_align, memcpy_words, memcpy_bytes, memcpy,
}
use learning_osdev.Mem.Words.{IsBytes}
use learning_osdev.Mem.Transfer.{
  IsReady, IsCopied, IsCopied-nil, IsReady-store8, IsCopied-store8, IsReady-store64,
  IsCopied-store64, IsMoved, IsMoved-nil, IsMoved-step,
}

module _ (end : ℕ) (fits : end + 8 < 2 ^ 64) where
  memcpy_align_lem :
      (f : ℕ) (orig : Memory) (p q : ℕ) (m : Memory)
      → end - p < f
      → IsReady end fits orig p q m
      → IsMoved end fits orig p q m (memcpy_align f end p q m)
  unfolding memcpy_align
  memcpy_align_lem zero orig p q m fuel r = absurd (omega arith)
  memcpy_align_lem (suc f) orig p q m fuel r = elim (Bool-cases (not (p % 8 == 0) && ltb p end)) [
    | inl more ↦
        let lt : p < end = ground arith in
        let e : u64 (p + 1) ≡ p + 1 = omega arith in
        let d : u64 (q + 1) ≡ q + 1 = omega (arith, r.source_fits) in
        let next = IsReady-store8 end fits lt r in
        rw (more, e, d)
          (IsMoved-step end fits 1
            (memcpy_align_lem f orig (p + 1) (q + 1) (store8 m p (m q)) (omega arith) next)
            (λ stop out above c. IsCopied-store8 end fits lt (omega arith) r c))
    | inr done ↦ rw done (IsMoved-nil end fits r)
  ]

  memcpy_words_lem :
      (f : ℕ) (orig : Memory) (p q : ℕ) (m : Memory)
      → end - p < f
      → IsReady end fits orig p q m
      → IsMoved end fits orig p q m (memcpy_words f end p q m)
  unfolding memcpy_words
  memcpy_words_lem zero orig p q m fuel r = absurd (omega arith)
  memcpy_words_lem (suc f) orig p q m fuel r = elim (Bool-cases (ltb (u64 (p + 8)) end)) [
    | inl more ↦
        let e : u64 (p + 8) ≡ p + 8 = omega (arith, r.ordered) in
        let lt : p + 8 < end = ground arith in
        let d : u64 (q + 8) ≡ q + 8 = omega (arith, r.source_fits) in
        let next = IsReady-store64 end fits lt r in
        rw (more, e, d)
          (IsMoved-step end fits 8
            (memcpy_words_lem f orig (p + 8) (q + 8) (store64 m p (load64 m q)) (omega arith) next)
            (λ stop out above c. IsCopied-store64 end fits lt above r c))
    | inr done ↦ rw done (IsMoved-nil end fits r)
  ]

  record IsBytesCopied (orig : Memory) (p q : ℕ) (m : Memory) (result : Option Memory)
      : Type 0 where
    out : Memory
    returns : result ≡ some out
    copied : IsCopied end fits orig p q end m out

  memcpy_bytes_lem :
      (f : ℕ) (orig : Memory) (p q : ℕ) (m : Memory)
      → end - p < f
      → IsReady end fits orig p q m
      → IsBytesCopied orig p q m (memcpy_bytes f end p q m)
  unfolding memcpy_bytes
  memcpy_bytes_lem zero orig p q m fuel r = absurd (omega arith)
  memcpy_bytes_lem (suc f) orig p q m fuel r = elim (Bool-cases (ltb p end)) [
    | inl more ↦
        let lt : p < end = ground arith in
        let e : u64 (p + 1) ≡ p + 1 = omega arith in
        let d : u64 (q + 1) ≡ q + 1 = omega (arith, r.source_fits) in
        let s =
          memcpy_bytes_lem f orig (p + 1) (q + 1) (store8 m p (m q)) (omega arith)
            (IsReady-store8 end fits lt r) in
        rw (more, e, d)
          (record {
            out = s.out;
            returns = s.returns;
            copied = IsCopied-store8 end fits lt lt r s.copied;
          })
    | inr done ↦
        let e : p ≡ end = ground (arith, r.ordered) in
        rw done (record {
          out = m;
          returns = refl;
          copied =
              subst (λ t. IsCopied end fits orig p q t m m) e (IsCopied-nil end fits orig p q m);
        })
  ]

-- `result` is a normal end of memcpy: the range at `dst` holds what the range at `src` held, and
-- every other byte is unchanged.
pub record IsMemcpy (dst src size : ℕ) (m : Memory) (result : Option Memory) : Type 0 where
  pub out : Memory
  pub returns : result ≡ some out
  pub inside : (i : ℕ) → i < size → out (dst + i) ≡ m (src + i)
  pub outside : (a : ℕ) → (a < dst) ⊎ (dst + size ≤ a) → out a ≡ m a

module _ (dst src size : ℕ) (m : Memory) (fits : dst + size + 8 < 2 ^ 64) where
  IsMemcpy-join :
      {r1 r2 : Option (ℕ × ℕ × Memory)} {r3 : Option Memory}
      (first : IsMoved (dst + size) fits m dst src m r1)
      (words : IsMoved (dst + size) fits m first.stop first.source first.out r2)
      (last : IsBytesCopied (dst + size) fits m words.stop words.source words.out r3)
      → IsMemcpy dst src size m r3
  IsMemcpy-join first words last = record {
    out = last.out;
    returns = last.returns;
    inside = λ i below. ground (
      arith,
      first.above,
      first.together,
      words.above,
      words.together,
      first.copied.inside (dst + i) (src + i),
      first.copied.outside (dst + i),
      words.copied.inside (dst + i) (src + i),
      words.copied.outside (dst + i),
      last.copied.inside (dst + i) (src + i),
      last.copied.outside (dst + i),
    );
    outside = λ a h. ground (
      arith,
      first.above,
      words.above,
      first.ready.ordered,
      words.ready.ordered,
      first.copied.outside a,
      words.copied.outside a,
      last.copied.outside a,
    );
  }

  IsMemcpy-rest :
      {r1 : Option (ℕ × ℕ × Memory)} (first : IsMoved (dst + size) fits m dst src m r1)
      → IsMemcpy dst src size m (do
        (p, q, m2) ← memcpy_words (size + 1) (dst + size) first.stop first.source first.out
        memcpy_bytes (size + 1) (dst + size) p q m2)
  IsMemcpy-rest first = rest-of (
      memcpy_words_lem (dst + size) fits (size + 1) m first.stop first.source first.out
        (omega (arith, first.above)) first.ready)
    where
      rest-of :
          {r2 : Option (ℕ × ℕ × Memory)}
          (words : IsMoved (dst + size) fits m first.stop first.source first.out r2)
          → IsMemcpy dst src size m
              (r2 >>= λ (p, q, m2). memcpy_bytes (size + 1) (dst + size) p q m2)
      rest-of words = rw words.returns (
          IsMemcpy-join first words (
            memcpy_bytes_lem (dst + size) fits (size + 1) m words.stop words.source words.out
              (omega (arith, first.above, words.above)) words.ready))

  -- memcpy between ranges of bytes that do not overlap, both below the end of the address space,
  -- returns, copies the range at `src` to `dst` and changes no other byte.
  pub memcpy_lem :
      src + size + 8 < 2 ^ 64
      → (src + size ≤ dst) ⊎ (dst + size ≤ src)
      → IsBytes m
      → IsMemcpy dst src size m (memcpy dst src size m)
  unfolding memcpy
  memcpy_lem source_fits apart bytes =
      let e : u64 (dst + size) ≡ dst + size = omega arith in
      let first = memcpy_align_lem (dst + size) fits (size + 1) m dst src m (omega arith) (record {
        ordered = omega arith;
        source_fits = omega arith;
        apart = omega arith;
        same = λ b lo hi. refl;
        bytes = bytes;
      }) in
      rw (e, first.returns) (IsMemcpy-rest first)
