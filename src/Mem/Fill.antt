-- ===== src/Mem/Fill.antt =====
-- The three loops of memset in bootloader/cboot/src/mem.c.
use learning_osdev.Base.{
  ℕ, zero, suc, ◌+◌, ◌-◌, ◌*◌, ◌/◌, ◌%◌, ◌^◌, ◌≤◌, ◌<◌, ◌≡◌, ◌≢◌, ◌⊎◌, refl, arith, Bool-cases, inl,
  inr, ◌&&◌, not, some, Option, ltb, ◌==◌, if◌then◌else◌, u64,
}
use learning_osdev.Mem.{Memory, store8, store64, memset_align, memset_words, memset_bytes}
use learning_osdev.Mem.Words.{store64-ne}

module _ (val end : ℕ) (small : val < 2 ^ 8) (fits : end + 8 < 2 ^ 64) where
  -- A loop that fills from `p` up to `q` bytes that are each described by `byte`.
  pub record IsFilled (byte : ℕ → ℕ) (p q : ℕ) (m out : Memory) : Type 0 where
    pub inside : (a : ℕ) → p ≤ a → a < q → out a ≡ byte a
    pub outside : (a : ℕ) → (a < p) ⊎ (q ≤ a) → out a ≡ m a

  IsFilled-nil : (byte : ℕ → ℕ) (p : ℕ) (m : Memory) → IsFilled byte p p m m
  IsFilled-nil byte p m = record { inside = λ a lo hi. absurd (omega arith); outside = λ a h. refl }

  -- Storing the byte at `p` and filling from the next address on.
  IsFilled-store8 :
      {p q : ℕ} {m out : Memory}
      → p < q
      → IsFilled (λ a. val) (p + 1) q (store8 m p val) out
      → IsFilled (λ a. val) p q m out
  unfolding store8
  IsFilled-store8 {p} lt rest = record {
    inside = λ a lo hi. ground (arith, rest.inside a, rest.outside a);
    outside = λ a h. ground (arith, rest.outside a);
  }

  pub record IsAligned (p : ℕ) (m : Memory) (result : Option (ℕ × Memory)) : Type 0 where
    pub stop : ℕ
    pub out : Memory
    pub returns : result ≡ some (stop, out)
    pub above : p ≤ stop
    pub near : stop ≤ (p + 7) / 8 * 8
    pub below : stop ≤ end
    pub aligned : (stop % 8 ≡ 0) ⊎ (stop ≡ end)
    pub filled : IsFilled (λ a. val) p stop m out

  IsAligned-step :
      {p : ℕ} {m : Memory} {result : Option (ℕ × Memory)}
      → p < end
      → p % 8 ≢ 0
      → IsAligned (p + 1) (store8 m p val) result
      → IsAligned p m result
  IsAligned-step lt odd rest = record {
    stop = rest.stop;
    out = rest.out;
    returns = rest.returns;
    above = omega (arith, rest.above);
    near = omega (arith, rest.near);
    below = rest.below;
    aligned = rest.aligned;
    filled = IsFilled-store8 (omega (arith, rest.above)) rest.filled;
  }

  pub memset_align_lem :
      (f p : ℕ) (m : Memory) → p ≤ end → end - p < f → IsAligned p m (memset_align f val end p m)
  unfolding memset_align
  memset_align_lem zero p m le fuel = absurd (omega arith)
  memset_align_lem (suc f) p m le fuel = elim (Bool-cases (not (p % 8 == 0) && ltb p end)) [
    | inl more ↦
        let e : u64 (p + 1) ≡ p + 1 = ground arith in
        rw (more, e)
          (IsAligned-step (ground arith) (ground arith)
            (memset_align_lem f (p + 1) (store8 m p val) (ground arith) (ground arith)))
    | inr done ↦ rw done (record {
      stop = p;
      out = m;
      returns = refl;
      above = omega arith;
      near = omega arith;
      below = le;
      aligned = ground arith;
      filled = IsFilled-nil (λ a. val) p m;
    })
  ]

  pub record IsWordsSet (p : ℕ) (m : Memory) (result : Option (ℕ × Memory)) : Type 0 where
    pub stop : ℕ
    pub out : Memory
    pub returns : result ≡ some (stop, out)
    pub above : p ≤ stop
    pub below : stop ≤ end
    pub aligned : (stop % 8 ≡ 0) ⊎ (stop ≡ end)
    pub last : end ≤ stop + 8
    pub first : (stop ≡ p) ⊎ (stop < end)
    pub filled : IsFilled (λ a. if a % 8 == 0 then val else 0) p stop m out

  store64-byte :
      (m : Memory) (p a : ℕ)
      → p % 8 ≡ 0
      → p ≤ a
      → a < p + 8
      → store64 m p val a ≡ (if a % 8 == 0 then val else 0)
  unfolding store64
  store64-byte m p a al lo hi = ground arith

  IsWordsSet-step :
      {p : ℕ} {m : Memory} {result : Option (ℕ × Memory)}
      → p + 8 < end
      → p % 8 ≡ 0
      → IsWordsSet (p + 8) (store64 m p val) result
      → IsWordsSet p m result
  IsWordsSet-step {p} {m} lt al rest = record {
    stop = rest.stop;
    out = rest.out;
    returns = rest.returns;
    above = omega (arith, rest.above);
    below = rest.below;
    aligned = rest.aligned;
    last = rest.last;
    first = inr (omega (arith, rest.first));
    filled = record {
      inside = λ a lo hi.
          ground
            (arith, rest.above, rest.filled.inside a, rest.filled.outside a, store64-byte m p a);
      outside = λ a h. ground (arith, rest.above, rest.filled.outside a, store64-ne m p val a);
    };
  }

  pub memset_words_lem :
      (f p : ℕ) (m : Memory)
      → p ≤ end
      → (p % 8 ≡ 0) ⊎ (p ≡ end)
      → end - p < f
      → IsWordsSet p m (memset_words f val end p m)
  unfolding memset_words
  memset_words_lem zero p m le al fuel = absurd (omega arith)
  memset_words_lem (suc f) p m le al fuel = elim (Bool-cases (ltb (u64 (p + 8)) end)) [
    | inl more ↦
        let e : u64 (p + 8) ≡ p + 8 = omega arith in
        let lt : p + 8 < end = ground arith in
        rw (more, e)
          (IsWordsSet-step lt (omega arith) (
            memset_words_lem f (p + 8) (store64 m p val) (omega arith) (inl (omega arith))
              (omega arith)))
    | inr done ↦ rw done (record {
      stop = p;
      out = m;
      returns = refl;
      above = omega arith;
      below = le;
      aligned = al;
      last = ground arith;
      first = inl refl;
      filled = IsFilled-nil _ p m;
    })
  ]

  pub record IsBytesSet (p : ℕ) (m : Memory) (result : Option Memory) : Type 0 where
    pub out : Memory
    pub returns : result ≡ some out
    pub filled : IsFilled (λ a. val) p end m out

  pub memset_bytes_lem :
      (f p : ℕ) (m : Memory) → p ≤ end → end - p < f → IsBytesSet p m (memset_bytes f val end p m)
  unfolding memset_bytes
  memset_bytes_lem zero p m le fuel = absurd (omega arith)
  memset_bytes_lem (suc f) p m le fuel = elim (Bool-cases (ltb p end)) [
    | inl more ↦
        let e : u64 (p + 1) ≡ p + 1 = ground arith in
        let rest = memset_bytes_lem f (p + 1) (store8 m p val) (ground arith) (ground arith) in
        rw (more, e)
          (record {
            out = rest.out;
            returns = rest.returns;
            filled = IsFilled-store8 (ground arith) rest.filled;
          })
    | inr done ↦
        let e : p ≡ end = ground arith in
        rw done (record { out = m; returns = refl; filled = rw e (IsFilled-nil _ end m) })
  ]
