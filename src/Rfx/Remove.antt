-- ===== src/Rfx/Remove.antt =====
-- The loop of rfx_remove_contact.
use cgr_jni.Base.{
  ℕ, zero, suc, ◌≡◌, ◌≢◌, ◌<◌, ◌⊎◌, ◌↔◌, inl, inr, refl, sym, ap, subst, ◌||◌, if◌then◌else◌,
  Bool-cases, Option, none, some, List, [], ◌∷◌, ◌∈◌, arith, ◌∙◌, ltb, lt→ltb, length,
}
use cgr_jni.Plan.{Key, order_keys}
use cgr_jni.Plan.Between
use cgr_jni.Plan.Between.{Between}
use cgr_jni.Rbt.{find, successors}
use cgr_jni.Rbt.Change
use cgr_jni.Rbt.Sorted
use cgr_jni.Rfx.{Cxref, Ion, Env, cxref_key, order_cxrefs}
use cgr_jni.Plan.Order.{order_keys-IsOrder}
use cgr_jni.Rfx.Contacts.{delete_contact, remove_all, remove_contact}
use cgr_jni.Rfx.Sound.{IsSound, delete_contact-IsSound}

-- The contacts that a call removes: one start time, or 0 for all.
abbrev pub Removed : ℕ → ℕ → ℕ → Cxref → Type 0
Removed from_time from_node to_node c =
    Between from_node to_node (cxref_key c) × ((from_time ≡ 0) ⊎ (c.from_time ≡ from_time))

-- What a removal leaves of the contacts. The ranges are not touched.
abbrev pub Leaves : (Cxref → Type 0) → Ion → Option Ion → Type 0
Leaves P s r =
    (t : Ion) × (r ≡ some t)
    × IsSound t
    × (t.range_index ≡ s.range_index)
    × ((c : Cxref) → (c ∈ t.contact_index) ↔ ((c ∈ s.contact_index) × ¬ P c))

delete_contact_iff :
    (env : Env) (x : Cxref) (s : Ion) (c : Cxref)
    → IsSound s
    → (c ∈ (delete_contact env x s).contact_index)
      ↔ ((c ∈ s.contact_index) × (cxref_key c ≢ cxref_key x))
unfolding delete_contact
delete_contact_iff env x s c sound =
    Change.delete_iff order_keys cxref_key order_keys-IsOrder (cxref_key x) s.contact_index c
      sound.kept.plan.sorted

delete_contact-range_index :
    (env : Env) (x : Cxref) (s : Ion) → (delete_contact env x s).range_index ≡ s.range_index
unfolding delete_contact
delete_contact-range_index env x s = refl

length-delete_contact :
    (env : Env) (x : Cxref) (s : Ion)
    → IsSound s
    → x ∈ s.contact_index
    → suc (length (delete_contact env x s).contact_index) ≡ length s.contact_index
unfolding delete_contact
length-delete_contact env x s sound m =
    Change.length-delete order_keys cxref_key order_keys-IsOrder (cxref_key x) s.contact_index x (
      Sorted.find-member order_keys cxref_key order_keys-IsOrder s.contact_index x
        sound.kept.plan.sorted m)

module _ (env : Env) (from_node to_node : ℕ) where
  abbrev Mine : Cxref → Type 0
  Mine c = Between from_node to_node (cxref_key c)

  started : (s : Ion) → IsSound s → (c : Cxref) → c ∈ s.contact_index → 0 < c.from_time
  started s sound c m = (sound.kept.plan.proper c m).0

  abbrev arg : Key
  arg = Between.start from_node to_node

  abbrev later : Ion → List Cxref
  later s = successors order_cxrefs arg s.contact_index

  remove_all-Leaves :
      (fuel : ℕ) (s : Ion)
      → IsSound s
      → length s.contact_index < fuel
      → Leaves Mine s (remove_all fuel env arg s)
  unfolding remove_all
  remove_all-Leaves zero s sound enough = absurd (omega arith)
  remove_all-Leaves (suc fuel) s sound enough =
      go (λ t k shorter. remove_all-Leaves fuel t k shorter) (later s) refl
    where
      unchanged : ((c : Cxref) → c ∈ s.contact_index → ¬ Mine c) → Leaves Mine s (some s)
      unchanged n = (s, refl, sound, refl, λ c. (λ m. (m, n c m), λ h. h.0))

      rest :
          (x : Cxref)
          → x ∈ s.contact_index
          → Mine x
          → Leaves Mine (delete_contact env x s) (remove_all fuel env arg (delete_contact env x s))
          → Leaves Mine s (remove_all fuel env arg (delete_contact env x s))
      rest x m b (t, e, t_sound, same, h) = (
        t,
        e,
        t_sound,
        same ∙ delete_contact-range_index env x s,
        λ c. (
          λ c_in.
              let (c_left, n) = (h c).0 c_in in
              (((delete_contact_iff env x s c sound).0 c_left).0, n),
          λ (c_in, n). (h c).1 (
            (delete_contact_iff env x s c sound).1
                (c_in, λ k. n (ap (λ z. z.from_node) k ∙ b.0, ap (λ z. z.to_node) k ∙ b.1)),
            n,
          ),
        ),
      )

      go :
          ((t : Ion)
            → IsSound t
            → length t.contact_index < fuel
            → Leaves Mine t (remove_all fuel env arg t))
          → (xs : List Cxref) → later s ≡ xs
          → Leaves Mine s (elim xs [
            | [] ↦ some s
            | cxref ∷ _ ↦
                let rest = remove_all fuel env arg (delete_contact env cxref s) in
                if ltb from_node cxref.from_node || ltb to_node cxref.to_node then some s else rest
          ])
      go again [] e = unchanged (λ c m b.
          subst (λ l. c ∈ l) e
            (Between.later_complete cxref_key s.contact_index sound.kept.plan.sorted
              (started s sound) from_node to_node c m b))
      go again (x ∷ xs) e = elim (Bool-cases (Between.beyond from_node to_node (cxref_key x))) [
        | inl b ↦ rw b (
            unchanged (
              Between.none_mine cxref_key s.contact_index sound.kept.plan.sorted (started s sound)
                from_node to_node x xs e b))
        | inr b ↦ rw b (
            let (m, p) =
              Between.later_in cxref_key s.contact_index sound.kept.plan.sorted (started s sound)
                from_node to_node x (subst (λ l. x ∈ l) (sym e) (inl refl)) in
            let shorter = length-delete_contact env x s sound m in
            rest x m (Between.first_mine from_node to_node (cxref_key x) p b) (
              again (delete_contact env x s) (delete_contact-IsSound env x s m sound)
                (omega arith)))
      ]

  -- In a sound state `rfx_remove_contact` ends, for one start time or for all, removes the contacts
  -- that the call names and no others, and leaves a sound state.
  pub remove_contact-Leaves :
      (from_time : ℕ) (s : Ion)
      → IsSound s
      → Leaves
          (Removed from_time from_node to_node)
          s
          (remove_contact env from_time from_node to_node s)
  unfolding remove_contact
  remove_contact-Leaves zero s sound =
      let (t, e, t_sound, same, h) =
        remove_all-Leaves (suc (length s.contact_index)) s sound (omega arith) in
      (
        t,
        e,
        t_sound,
        same,
        λ c. (
          λ m. let (m', n) = (h c).0 m in (m', λ r. n r.0),
          λ (m, n). (h c).1 (m, λ b. n (b, inl refl)),
        ),
      )
  remove_contact-Leaves (suc from_time) s sound =
      rw (lt→ltb 0 (suc from_time) (omega arith), remove_contact)
        (go (find order_cxrefs key s.contact_index) refl)
    where
      key : Key
      key = record { from_node = from_node; to_node = to_node; from_time = suc from_time }

      named_key : (c : Cxref) → Removed (suc from_time) from_node to_node c ↔ (cxref_key c ≡ key)
      named_key c = (
        λ (b, t). elim t [ inl e ↦ absurd (omega arith) | inr e ↦ ground (arith, b, e) ],
        λ e. ((ap (λ z. z.from_node) e, ap (λ z. z.to_node) e), inr (ap (λ z. z.from_time) e)),
      )

      go :
          (f : Option Cxref)
          → find order_cxrefs key s.contact_index ≡ f
          → Leaves
              (Removed (suc from_time) from_node to_node)
              s
              (elim f [ some cxref ↦ some (delete_contact env cxref s) | none ↦ some s ])
      go none e = (
        s,
        refl,
        sound,
        refl,
        λ c. (
          λ m. (
            m,
            λ r.
                Sorted.find-none order_keys cxref_key order_keys-IsOrder key s.contact_index c
                  sound.kept.plan.sorted e m ((named_key c).0 r),
          ),
          λ h. h.0,
        ),
      )
      go (some x) e =
          let (x_in, k) =
            Sorted.find-some order_keys cxref_key order_keys-IsOrder key s.contact_index x e in
          (
            delete_contact env x s,
            refl,
            delete_contact-IsSound env x s x_in sound,
            delete_contact-range_index env x s,
            λ c. (
              λ m.
                  let (c_in, n) = (delete_contact_iff env x s c sound).0 m in
                  (c_in, λ r. n ((named_key c).0 r ∙ sym k)),
              λ (m, n).
                  (delete_contact_iff env x s c sound).1 (m, λ r. n ((named_key c).1 (r ∙ k))),
            ),
          )
