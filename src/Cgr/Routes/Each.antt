-- ===== src/Cgr/Routes/Each.antt =====
-- Loops over the contact index that work on the notes.
use cgr_jni.Base.{
  ℕ, ◌≡◌, inl, inr, sym, ◌∙◌, subst, ap, List, [], ◌∷◌, ◌∈◌, arith, Bool-cases, true, ◌==◌, refl,
}
use cgr_jni.Plan.{Contact}
use cgr_jni.Cgr.Note.{Note, Notes, update}
use cgr_jni.Cgr.Routes.{each}

module _ (f : Contact → Note → Note) (Q : Note → Type 0) (a : ℕ) where
  after :
      (d : Contact) (notes : Notes)
      → (d.addr ≡ a → Q (f d (notes d.addr)))
      → Q (notes a)
      → Q (update notes d.addr (f d (notes d.addr)) a)
  unfolding update
  after d notes here q = elim (Bool-cases (a == d.addr)) [
    | inl at ↦ rw at (here (ground arith))
    | inr off ↦ rw off q
  ]

  hit :
      (d : Contact) (notes : Notes)
      → d.addr ≡ a
      → Q (f d (notes d.addr))
      → Q (update notes d.addr (f d (notes d.addr)) a)
  unfolding update
  hit d notes e q = let at : (a == d.addr) ≡ true = ground arith in rw at q

  -- What each step keeps of the note at `a`, the loop keeps.
  pub each_keeps :
      (index : List Contact) (notes : Notes)
      → ((d : Contact) (work : Note) → d ∈ index → d.addr ≡ a → Q work → Q (f d work))
      → Q (notes a)
      → Q (each f index notes a)
  unfolding each
  each_keeps [] notes keep q = q
  each_keeps (d ∷ index) notes keep q =
      each_keeps index (update notes d.addr (f d (notes d.addr))) (λ x work m. keep x work (inr m))
        (after d notes
          (λ e. subst (λ b. Q (f d (notes b))) (sym e) (keep d (notes a) (inl refl) e q)) q)

  -- What each step makes true of the note at `a`, is true after the loop if it works on that note.
  pub each_sets :
      (index : List Contact) (notes : Notes) (c : Contact)
      → ((d : Contact) (work : Note) → d ∈ index → d.addr ≡ a → Q (f d work))
      → c ∈ index
      → c.addr ≡ a
      → Q (each f index notes a)
  unfolding each
  each_sets [] notes c set m e = absurd m
  each_sets (d ∷ index) notes c set (inl same) e =
      each_keeps index (update notes d.addr (f d (notes d.addr)))
        (λ x work m at q. set x work (inr m) at)
        (hit d notes (ap (λ (x : Contact). x.addr) (sym same) ∙ e)
          (set d (notes d.addr) (inl refl) (ap (λ (x : Contact). x.addr) (sym same) ∙ e)))
  each_sets (d ∷ index) notes c set (inr m) e =
      each_sets index (update notes d.addr (f d (notes d.addr))) c (λ x work n. set x work (inr n))
        m e
