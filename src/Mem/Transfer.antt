-- ===== src/Mem/Transfer.antt =====
-- What one round of a loop of memcpy does, in bootloader/cboot/src/mem.c, and how rounds join.
use learning_osdev.Base.{ℕ, ◌+◌, ◌^◌, ◌≤◌, ◌<◌, ◌≡◌, ◌⊎◌, refl, arith, some, Option}
use learning_osdev.Mem.{Memory, store8, load64, store64}
use learning_osdev.Mem.Words.{IsBytes, store64-ne, store64-IsBytes}
use learning_osdev.Mem.Bytes.{store64-load64}

module _ (end : ℕ) (fits : end + 8 < 2 ^ 64) where
  -- What a loop has to do from `p`, with the source at `q`: the rest of the source is that of
  -- `orig` and does not overlap what is still to be written.
  pub record IsReady (orig : Memory) (p q : ℕ) (m : Memory) : Type 0 where
    pub ordered : p ≤ end
    pub source_fits : q + end + 8 < p + 2 ^ 64
    pub apart : (q + end ≤ p + p) ⊎ (end ≤ q)
    pub same : (b : ℕ) → q ≤ b → b + p < q + end → m b ≡ orig b
    pub bytes : IsBytes m

  -- The bytes from `p` up to `stop` are copied from `q` on, and no other byte changes.
  pub record IsCopied (orig : Memory) (p q stop : ℕ) (m out : Memory) : Type 0 where
    pub inside : (a b : ℕ) → p ≤ a → a < stop → a + q ≡ b + p → out a ≡ orig b
    pub outside : (a : ℕ) → (a < p) ⊎ (stop ≤ a) → out a ≡ m a

  pub IsCopied-nil : (orig : Memory) (p q : ℕ) (m : Memory) → IsCopied orig p q p m m
  IsCopied-nil orig p q m = record {
    inside = λ a b lo hi e. absurd (omega arith);
    outside = λ a h. refl;
  }

  pub IsReady-store8 :
      {orig m : Memory} {p q : ℕ}
      → p < end
      → IsReady orig p q m
      → IsReady orig (p + 1) (q + 1) (store8 m p (m q))
  unfolding store8
  IsReady-store8 {p} lt r = record {
    ordered = omega arith;
    source_fits = omega (arith, r.source_fits);
    apart = omega (arith, r.apart);
    same = λ b lo hi. ground (arith, r.same b, r.apart);
    bytes = λ a. ground (arith, r.bytes a);
  }

  pub IsCopied-store8 :
      {orig m out : Memory} {p q stop : ℕ}
      → p < end
      → p < stop
      → IsReady orig p q m
      → IsCopied orig (p + 1) (q + 1) stop (store8 m p (m q)) out
      → IsCopied orig p q stop m out
  unfolding store8
  IsCopied-store8 {p} {q} lt below r c = record {
    inside = λ a b lo hi e. ground (arith, c.inside a b, c.outside a, r.same b, r.bytes b);
    outside = λ a h. ground (arith, c.outside a);
  }

  pub IsReady-store64 :
      {orig m : Memory} {p q : ℕ}
      → p + 8 < end
      → IsReady orig p q m
      → IsReady orig (p + 8) (q + 8) (store64 m p (load64 m q))
  IsReady-store64 {m} {p} {q} lt r = record {
    ordered = omega arith;
    source_fits = omega (arith, r.source_fits);
    apart = omega (arith, r.apart);
    same = λ b lo hi. ground (arith, r.same b, r.apart, store64-ne m p (load64 m q) b);
    bytes = store64-IsBytes p (load64 m q) r.bytes;
  }

  pub IsCopied-store64 :
      {orig m out : Memory} {p q stop : ℕ}
      → p + 8 < end
      → p + 8 ≤ stop
      → IsReady orig p q m
      → IsCopied orig (p + 8) (q + 8) stop (store64 m p (load64 m q)) out
      → IsCopied orig p q stop m out
  IsCopied-store64 {m} {p} {q} lt below r c = record {
    inside = λ a b lo hi e.
        ground (arith, c.inside a b, c.outside a, r.same b, store64-load64 m p q a b r.bytes);
    outside = λ a h. ground (arith, c.outside a, store64-ne m p (load64 m q) a);
  }

  -- A loop that stops with both pointers moved on by the same distance.
  pub record IsMoved (orig : Memory) (p q : ℕ) (m : Memory) (result : Option (ℕ × ℕ × Memory))
      : Type 0 where
    pub stop : ℕ
    pub source : ℕ
    pub out : Memory
    pub returns : result ≡ some (stop, source, out)
    pub above : p ≤ stop
    pub together : stop + q ≡ source + p
    pub ready : IsReady orig stop source out
    pub copied : IsCopied orig p q stop m out

  pub IsMoved-nil :
      {orig m : Memory} {p q : ℕ} → IsReady orig p q m → IsMoved orig p q m (some (p, q, m))
  IsMoved-nil {orig} {m} {p} {q} r = record {
    stop = p;
    source = q;
    out = m;
    returns = refl;
    above = omega arith;
    together = omega arith;
    ready = r;
    copied = IsCopied-nil orig p q m;
  }

  -- One round that moves both pointers by `d`, and the rounds after it.
  pub IsMoved-step :
      (d : ℕ) {orig m n : Memory} {p q : ℕ} {result : Option (ℕ × ℕ × Memory)}
      → IsMoved orig (p + d) (q + d) n result
      → ((stop : ℕ) (out : Memory)
          → p + d ≤ stop
          → IsCopied orig (p + d) (q + d) stop n out
          → IsCopied orig p q stop m out)
      → IsMoved orig p q m result
  IsMoved-step d s copy = record {
    stop = s.stop;
    source = s.source;
    out = s.out;
    returns = s.returns;
    above = omega (arith, s.above);
    together = omega (arith, s.together);
    ready = s.ready;
    copied = copy s.stop s.out s.above s.copied;
  }
