-- ===== src/Cgr/Routes/Count.antt =====
-- Counting the contacts that a series of searches has left unsuppressed.
use cgr_jni.Base.{
  ℕ, ◌+◌, ◌-◌, ◌*◌, refl, subst, sym, ◌≡◌, ◌≤◌, ◌<◌, inl, inr, Bool, true, false, ◌&&◌, not,
  if◌then◌else◌, List, [], ◌∷◌, length, ◌∈◌, arith,
}
use cgr_jni.Plan.{Contact}
use cgr_jni.Cgr.Note.{Notes}

module _ (P : Contact → Bool) where
  abbrev pub count : Notes → List Contact → ℕ
  count notes [] = 0
  count notes (c ∷ cs) = (if P c && not (notes c.addr).suppressed then 1 else 0) + count notes cs

  -- No suppression of a contact that counts is taken back.
  abbrev pub Grows : Notes → Notes → List Contact → Type 0
  Grows notes notes' cs =
      (c : Contact)
      → c ∈ cs
      → P c ≡ true
      → (notes c.addr).suppressed ≡ true
      → (notes' c.addr).suppressed ≡ true

  pub count-le-length : (notes : Notes) (cs : List Contact) → count notes cs ≤ length cs
  count-le-length notes [] = omega arith
  count-le-length notes (c ∷ cs) = ground (arith, count-le-length notes cs)

  pub count_falls :
      (notes notes' : Notes) (cs : List Contact)
      → Grows notes notes' cs
      → count notes' cs ≤ count notes cs
  count_falls notes notes' [] grows = omega arith
  count_falls notes notes' (c ∷ cs) grows =
      ground (arith, grows c (inl refl), count_falls notes notes' cs (λ d m. grows d (inr m)))

  pub count_lt :
      (notes notes' : Notes) (d : Contact) (cs : List Contact)
      → Grows notes notes' cs
      → d ∈ cs
      → P d ≡ true
      → (notes d.addr).suppressed ≡ false
      → (notes' d.addr).suppressed ≡ true
      → count notes' cs < count notes cs
  count_lt notes notes' d [] grows m counts free now = absurd m
  count_lt notes notes' d (c ∷ cs) grows (inl e) counts free now =
      ground (arith, e, count_falls notes notes' cs (λ x m. grows x (inr m)))
  count_lt notes notes' d (c ∷ cs) grows (inr m) counts free now = ground (
    arith,
    grows c (inl refl),
    count_lt notes notes' d cs (λ x m. grows x (inr m)) m counts free now,
  )

pub lex_first : (a' a b' b n : ℕ) → a' < a → b' ≤ n → a' * (n + 1) + b' < a * (n + 1) + b
lex_first a' a b' b n lt le =
    let e : a ≡ a' + 1 + (a - a' - 1) = omega arith in
    subst (λ x. a' * (n + 1) + b' < x * (n + 1) + b) (sym e) (omega arith)

pub lex_second : (a' a b' b n : ℕ) → a' ≤ a → b' < b → a' * (n + 1) + b' < a * (n + 1) + b
lex_second a' a b' b n le lt =
    let e : a ≡ a' + (a - a') = omega arith in
    subst (λ x. a' * (n + 1) + b' < x * (n + 1) + b) (sym e) (omega arith)
