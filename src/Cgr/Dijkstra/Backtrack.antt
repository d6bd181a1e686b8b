-- ===== src/Cgr/Dijkstra/Backtrack.antt =====
-- Reading the route off, from predecessor to predecessor.
use cgr_jni.Base.{
  ℕ, zero, suc, ◌≡◌, ◌≤◌, ◌<◌, ◌⊎◌, refl, sym, ◌∙◌, ap, inl, inr, some, List, [], ◌∷◌, ◌++◌, length,
  length-append, ◌∈◌, arith, ◌==◌, true, false,
}
use cgr_jni.Plan.{Contact}
use cgr_jni.Cgr.Note.{Notes}
use cgr_jni.Cgr.Dijkstra.{Trace, trace_step, trace_back}
use cgr_jni.Cgr.Dijkstra.Invariant.{Problem, IsReady, Trail, here, via}

-- The loop, over the hops that it meets, the last of them first.
pub trace_all : Notes → List Contact → Trace → Trace
trace_all notes [] t = t
trace_all notes (h ∷ hops) t = trace_step notes h (trace_all notes hops t)

trace_all-append :
    (notes : Notes) (hops : List Contact) (c : Contact) (t : Trace)
    → trace_all notes (hops ++ (c ∷ [])) t ≡ trace_all notes hops (trace_step notes c t)
unfolding trace_all
trace_all-append notes [] c t = refl
trace_all-append notes (h ∷ hops) c t = ap (trace_step notes h) (trace_all-append notes hops c t)

pub trace_back_lem :
    (p : Problem)
    → IsReady p
    → (notes : Notes) (limit : ℕ) (c : Contact) (hops : List Contact) (fuel : ℕ) (t : Trace)
    → Trail p notes limit c hops
    → length hops < fuel
    → trace_back fuel notes p.root (some c) t ≡ some (trace_all notes hops t)
unfolding trace_back trace_all
trace_back_lem p ready notes limit c hops zero t trail enough = absurd (omega arith)
trace_back_lem p ready notes limit _ _ (suc fuel) t here enough = rw (self, trace_back)
  where
    self : (p.root.addr == p.root.addr) ≡ true
    self = ground arith
trace_back_lem p ready notes limit _ _ (suc fuel) t (via {q} {hops} c trail low soon m pred)
      enough =
    let other : (c.addr == p.root.addr) ≡ false = ground (arith, ready.apart c m) in
    let rest =
      trace_back_lem p ready notes limit q hops fuel (trace_step notes c t) trail
        (omega (arith, length-append hops (c ∷ []))) in
    rw (other, trace_back) (rw pred (rest ∙ ap some (sym (trace_all-append notes hops c t))))

-- What the loop has gathered from the hops.
pub trace_all-hops :
    (notes : Notes) (hops : List Contact) (t : Trace)
    → (trace_all notes hops t).hops ≡ hops ++ t.hops
unfolding trace_all trace_step
trace_all-hops notes [] t = refl
trace_all-hops notes (h ∷ hops) t = ap (λ hs. h ∷ hs) (trace_all-hops notes hops t)

-- `m` is the least of the values of `f` on the list, or `top` if that is less.
pub record IsLeast (f : Contact → ℕ) (top m : ℕ) (hops : List Contact) : Type 0 where
  pub below_top : m ≤ top
  pub below : (h : Contact) → h ∈ hops → m ≤ f h
  pub attained : (m ≡ top) ⊎ ((h : Contact) × (h ∈ hops) × (m ≡ f h))

min_step :
    (f : Contact → ℕ) (top m n : ℕ) (h : Contact) (hops : List Contact)
    → IsLeast f top m hops
    → ((m ≤ f h) × (n ≡ m)) ⊎ ((f h ≤ m) × (n ≡ f h))
    → IsLeast f top n (h ∷ hops)
min_step f top m n h hops l (inl (le, e)) = record {
  below_top = omega (arith, l.below_top);
  below = λ g mg. elim mg [ inl same ↦ ground arith | inr old ↦ omega (arith, l.below g old) ];
  attained = elim l.attained [
    | inl at_top ↦ inl (e ∙ at_top)
    | inr (g, mg, at) ↦ inr (g, inr mg, e ∙ at)
  ];
}
min_step f top m n h hops l (inr (le, e)) = record {
  below_top = omega (arith, l.below_top);
  below = λ g mg. elim mg [ inl same ↦ ground arith | inr old ↦ omega (arith, l.below g old) ];
  attained = inr (h, inl refl, e);
}

pub trace_all-end_time :
    (notes : Notes) (hops : List Contact) (t : Trace)
    → IsLeast (λ h. h.to_time) t.end_time (trace_all notes hops t).end_time hops
unfolding trace_all trace_step
trace_all-end_time notes [] t = record {
  below_top = omega arith;
  below = λ h m. absurd m;
  attained = inl refl;
}
trace_all-end_time notes (h ∷ hops) t =
    min_step (λ (h : Contact). h.to_time) t.end_time (trace_all notes hops t).end_time
      (trace_all notes (h ∷ hops) t).end_time h hops (trace_all-end_time notes hops t)
      (ground arith)

pub trace_all-capacity :
    (notes : Notes) (hops : List Contact) (t : Trace)
    → IsLeast (λ h. (notes h.addr).capacity) t.capacity (trace_all notes hops t).capacity hops
unfolding trace_all trace_step
trace_all-capacity notes [] t = record {
  below_top = omega arith;
  below = λ h m. absurd m;
  attained = inl refl;
}
trace_all-capacity notes (h ∷ hops) t =
    min_step (λ (h : Contact). (notes h.addr).capacity) t.capacity (trace_all notes hops t).capacity
      (trace_all notes (h ∷ hops) t).capacity h hops (trace_all-capacity notes hops t)
      (ground arith)

-- The least of `f` is that of `g`, where they agree on the list.
pub IsLeast-ext :
    (f g : Contact → ℕ) (top m : ℕ) (hops : List Contact)
    → ((h : Contact) → h ∈ hops → f h ≡ g h)
    → IsLeast f top m hops
    → IsLeast g top m hops
IsLeast-ext f g top m hops same l = record {
  below_top = l.below_top;
  below = λ h mh. omega (arith, same h mh, l.below h mh);
  attained = elim l.attained [
    | inl at_top ↦ inl at_top
    | inr (h, mh, at) ↦ inr (h, mh, at ∙ same h mh)
  ];
}
