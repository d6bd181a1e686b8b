-- ===== src/Rfx/Stored.antt =====
-- The contact index next to the list of contacts in the database.
use mathlib.Core.Bool.{false≢true}
use cgr_jni.Base.{
  ℕ, ◌≡◌, ◌≢◌, ◌<◌, ◌⊎◌, ◌↔◌, inl, inr, refl, sym, ap, List, [], ◌∷◌, ◌++◌, ◌∈◌, All, All-mem,
  arith, ◌∙◌, ==_iff, ◌==◌, Bool-cases, mem_last,
}
use cgr_jni.Rfx.{Cxref, IonContact, Ion}
use cgr_jni.Rfx.Contacts.{delete_elt}

-- The entry is that of the contact. The probability is left out: the index does not hold it.
pub record Records (c : Cxref) (x : IonContact) : Type 0 where
  pub elt : x.elt ≡ c.contact_elt
  pub from_time : x.from_time ≡ c.from_time
  pub to_time : x.to_time ≡ c.to_time
  pub from_node : x.from_node ≡ c.from_node
  pub to_node : x.to_node ≡ c.to_node
  pub xmit_rate : x.xmit_rate ≡ c.xmit_rate

-- The list elements ascend, and are below the next one.
abbrev pub IsAscending : List IonContact → Type 0
IsAscending [] = Unit
IsAscending (x ∷ xs) = All (λ (y : IonContact). x.elt < y.elt) xs × IsAscending xs

pub record IsStored (s : Ion) : Type 0 where
  pub ascending : IsAscending s.contacts
  pub fresh : (x : IonContact) → x ∈ s.contacts → x.elt < s.next_elt
  pub stored : (c : Cxref) → c ∈ s.contact_index → (x : IonContact) × (x ∈ s.contacts) × Records c x
  pub indexed :
      (x : IonContact) → x ∈ s.contacts → (c : Cxref) × (c ∈ s.contact_index) × Records c x

pub elt-inj :
    (xs : List IonContact) (x y : IonContact)
    → IsAscending xs
    → x ∈ xs
    → y ∈ xs
    → x.elt ≡ y.elt
    → x ≡ y
elt-inj [] x y s m n e = absurd m
elt-inj (z ∷ xs) x y s (inl e) (inl f) g = e ∙ sym f
elt-inj (z ∷ xs) x y s (inl e) (inr n) g =
    absurd
      (omega (arith, All-mem (λ (w : IonContact). z.elt < w.elt) y xs s.0 n, ap (λ w. w.elt) e, g))
elt-inj (z ∷ xs) x y s (inr m) (inl f) g =
    absurd
      (omega (arith, All-mem (λ (w : IonContact). z.elt < w.elt) x xs s.0 m, ap (λ w. w.elt) f, g))
elt-inj (z ∷ xs) x y s (inr m) (inr n) g = elt-inj xs x y s.1 m n g

delete_elt_hit :
    (y : IonContact) (xs : List IonContact) (z : IonContact)
    → All (λ (w : IonContact). y.elt < w.elt) xs
    → z ∈ xs
    → z.elt ≢ y.elt
delete_elt_hit y xs z s m e = omega (arith, All-mem (λ (w : IonContact). y.elt < w.elt) z xs s m, e)

pub delete_elt_iff :
    (elt : ℕ) (xs : List IonContact) (z : IonContact)
    → IsAscending xs
    → (z ∈ delete_elt elt xs) ↔ ((z ∈ xs) × (z.elt ≢ elt))
unfolding delete_elt
delete_elt_iff elt [] z s = (λ m. absurd m, λ h. absurd h.0)
delete_elt_iff elt (y ∷ xs) z s =
    let rest = delete_elt_iff elt xs z s.1 in
    elim (Bool-cases (y.elt == elt)) [
      | inl e ↦
          let same = (==_iff y.elt elt).0 e in
          rw (e, delete_elt)
            (
              λ m. (inr m, λ k. delete_elt_hit y xs z s.0 m (k ∙ sym same)),
              λ (m, n). elim m [ inl k ↦ absurd (n (ap (λ w. w.elt) k ∙ same)) | inr k ↦ k ],
            )
      | inr e ↦
          rw (e, delete_elt)
            (
              λ m. elim m [
                | inl k ↦ (
                  inl k,
                  λ f. false≢true (sym e ∙ (==_iff y.elt elt).1 (sym (ap (λ w. w.elt) k) ∙ f)),
                )
                | inr k ↦ (inr (rest.0 k).0, (rest.0 k).1)
              ],
              λ (m, n). elim m [ inl k ↦ inl k | inr k ↦ inr (rest.1 (k, n)) ],
            )
    ]

pub delete_elt-All :
    (P : IonContact → Type 0) (elt : ℕ) (xs : List IonContact)
    → All P xs
    → All P (delete_elt elt xs)
unfolding delete_elt
delete_elt-All P elt [] h = tt
delete_elt-All P elt (x ∷ xs) h = ground (arith, delete_elt-All P elt xs h.1)

pub delete_elt-IsAscending :
    (elt : ℕ) (xs : List IonContact) → IsAscending xs → IsAscending (delete_elt elt xs)
unfolding delete_elt
delete_elt-IsAscending elt [] s = tt
delete_elt-IsAscending elt (x ∷ xs) s = ground (
  arith,
  delete_elt-IsAscending elt xs s.1,
  delete_elt-All (λ (w : IonContact). x.elt < w.elt) elt xs s.0,
)

pub append_elt-All :
    (P : IonContact → Type 0) (xs : List IonContact) (y : IonContact)
    → All P xs
    → P y
    → All P (xs ++ (y ∷ []))
append_elt-All P [] y h p = (p, tt)
append_elt-All P (x ∷ xs) y h p = (h.0, append_elt-All P xs y h.1 p)

pub append_elt-IsAscending :
    (xs : List IonContact) (y : IonContact)
    → IsAscending xs
    → ((x : IonContact) → x ∈ xs → x.elt < y.elt)
    → IsAscending (xs ++ (y ∷ []))
append_elt-IsAscending [] y s h = (tt, tt)
append_elt-IsAscending (x ∷ xs) y s h = (
  append_elt-All (λ (w : IonContact). x.elt < w.elt) xs y s.0 (h x (inl refl)),
  append_elt-IsAscending xs y s.1 (λ z m. h z (inr m)),
)

pub append_elt_iff :
    (xs : List IonContact) (y z : IonContact) → (z ∈ xs ++ (y ∷ [])) ↔ ((z ∈ xs) ⊎ (z ≡ y))
append_elt_iff xs y z = (mem_last xs y z, back xs)
  where
    back : (xs : List IonContact) → (z ∈ xs) ⊎ (z ≡ y) → z ∈ xs ++ (y ∷ [])
    back [] (inl m) = absurd m
    back [] (inr e) = inl e
    back (x ∷ xs) (inl (inl e)) = inl e
    back (x ∷ xs) (inl (inr m)) = inr (back xs (inl m))
    back (x ∷ xs) (inr e) = inr (back xs (inr e))

-- The entry that was appended last is the one that its element deletes.
pub delete_elt-append :
    (xs : List IonContact) (y : IonContact)
    → ((x : IonContact) → x ∈ xs → x.elt < y.elt)
    → delete_elt y.elt (xs ++ (y ∷ [])) ≡ xs
unfolding delete_elt
delete_elt-append [] y h = ground arith
delete_elt-append (x ∷ xs) y h =
    ground (arith, h x (inl refl), delete_elt-append xs y (λ z m. h z (inr m)))
