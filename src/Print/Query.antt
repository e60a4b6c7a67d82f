-- ===== src/Print/Query.antt =====
-- Functions that print and return a value.
use learning_osdev.Base.{ℕ, ◌∙◌, ◌≡◌, List, [], ◌++◌, Option, none, some, ap, sym}
use learning_osdev.Print.{Console}
use learning_osdev.Print.Text.{shown, shown-nil}
use learning_osdev.Print.Printer.{Printer, Prints, shown-append}

-- `none` is a loop that does not end.
abbrev pub Query : Type 0 → Type 0
Query A = Console → Option (A × Console)

abbrev pub answer : {A : Type 0} → A → Query A
answer a k = some (a, k)

-- The printing, and then the rest.
abbrev pub after : {A : Type 0} → Printer → Query A → Query A
after p q k = elim (p k) [ none ↦ none | some k' ↦ q k' ]

infixl 5 ◌>>=◌
abbrev pub ◌>>=◌ : {A B : Type 0} → Query A → (A → Query B) → Query B
◌>>=◌ q f k = elim (q k) [ none ↦ none | some (a, k') ↦ f a k' ]

-- The call ends with the value, and prints exactly the text.
pub record Gives {A : Type 0} (q : Query A) (a : A) (xs : List ℕ) : Type 0 where
  pub run : (k : Console) → q k ≡ some (a, shown xs k)

module _ {A : Type 0} where
  pub Gives-answer : (a : A) → Gives (answer a) a []
  Gives-answer a = record { run = λ k. ap (λ (t : Console). some (a, t)) (sym (shown-nil k)) }

  pub Gives-after :
      {p : Printer} {q : Query A} {a : A} {xs ys : List ℕ}
      → Prints p xs
      → Gives q a ys
      → Gives (after p q) a (xs ++ ys)
  Gives-after {a} {xs} {ys} hp hq = record {
    run = λ k.
        rw (after, hp.run k)
          (hq.run (shown xs k) ∙ ap (λ (t : Console). some (a, t)) (shown-append xs ys k));
  }

pub >>=-Gives :
    {A B : Type 0} {q : Query A} (f : A → Query B) {a : A} {b : B} {xs ys : List ℕ}
    → Gives q a xs
    → Gives (f a) b ys
    → Gives (q >>= f) b (xs ++ ys)
>>=-Gives f {b} {xs} {ys} hq hf = record {
  run = λ k.
      rw (◌>>=◌, hq.run k)
        (hf.run (shown xs k) ∙ ap (λ (t : Console). some (b, t)) (shown-append xs ys k));
}
