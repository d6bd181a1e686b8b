-- ===== src/Cgr/Routes/Clear.antt =====
-- The clearing of the notes in loadRouteList, between two searches.
use cgr_jni.Base.{ℕ, ◌≡◌, ◌≢◌, ◌≤◌, ◌⊎◌, inl, refl, List, ◌∈◌, arith, true, false}
use cgr_jni.Plan.{Contact}
use cgr_jni.Cgr.Note.{Notes, max_time, contact_capacity}
use cgr_jni.Cgr.Dijkstra.Neighbors.{IsContactIndex}
use cgr_jni.Cgr.Routes.{
  clear_note, blank_note, clear_notes, reset_notes, end_anchored_search, end_note,
}
use cgr_jni.Cgr.Routes.Each.{each_keeps, each_sets}

-- What `loadRouteList` relies on of the contact index: it is in order, its contacts have addresses
-- of their own, and they and the present are not later than MAX_TIME.
pub record IsPlan (index : List Contact) (root_addr current_time : ℕ) : Type 0 where
  pub ordered : IsContactIndex index
  pub distinct : (c d : Contact) → c ∈ index → d ∈ index → c.addr ≡ d.addr → c ≡ d
  pub apart : (c : Contact) → c ∈ index → c.addr ≢ root_addr
  pub in_time : current_time ≤ max_time
  pub ends : (c : Contact) → c ∈ index → c.to_time ≤ max_time

-- The notes are ready for a search.
pub record IsCleared (index : List Contact) (notes : Notes) : Type 0 where
  pub unvisited : (c : Contact) → c ∈ index → (notes c.addr).visited ≡ false
  pub unreached : (c : Contact) → c ∈ index → (notes c.addr).arrival_time ≡ max_time
  pub capacity :
      (c : Contact)
      → c ∈ index
      → ((notes c.addr).capacity ≡ 0) ⊎ ((notes c.addr).capacity ≡ contact_capacity c)

abbrev pub Capacities : List Contact → Notes → Type 0
Capacities index notes =
    (c : Contact)
    → c ∈ index
    → ((notes c.addr).capacity ≡ 0) ⊎ ((notes c.addr).capacity ≡ contact_capacity c)

pub clear_notes-IsCleared :
    (index : List Contact) (notes : Notes)
    → Capacities index notes
    → IsCleared index (clear_notes index notes)
unfolding clear_notes
clear_notes-IsCleared index notes capacities = record {
  unvisited = λ c m.
      each_sets (λ c work. clear_note work) (λ work. work.visited ≡ false) c.addr index notes c
        (λ d work n e. refl) m refl;
  unreached = λ c m.
      each_sets (λ c work. clear_note work) (λ work. work.arrival_time ≡ max_time) c.addr index
        notes c (λ d work n e. refl) m refl;
  capacity = λ c m.
      each_keeps (λ c work. clear_note work)
        (λ work. (work.capacity ≡ 0) ⊎ (work.capacity ≡ contact_capacity c)) c.addr index notes
        (λ d work n e q. q) (capacities c m);
}

pub clear_notes-suppressed :
    (index : List Contact) (notes : Notes) (a : ℕ)
    → (clear_notes index notes a).suppressed ≡ (notes a).suppressed
unfolding clear_notes
clear_notes-suppressed index notes a =
    each_keeps (λ c work. clear_note work) (λ work. work.suppressed ≡ (notes a).suppressed) a index
      notes (λ d work n e q. q) refl

pub reset_notes-IsCleared :
    (index : List Contact) (notes : Notes) → IsCleared index (reset_notes index notes)
unfolding reset_notes
reset_notes-IsCleared index notes = record {
  unvisited = λ c m.
      each_sets (λ c work. blank_note) (λ work. work.visited ≡ false) c.addr index notes c
        (λ d work n e. refl) m refl;
  unreached = λ c m.
      each_sets (λ c work. blank_note) (λ work. work.arrival_time ≡ max_time) c.addr index notes c
        (λ d work n e. refl) m refl;
  capacity = λ c m. inl (
      each_sets (λ c work. blank_note) (λ work. work.capacity ≡ 0) c.addr index notes c
        (λ d work n e. refl) m refl);
}

pub reset_notes-suppressed :
    (index : List Contact) (notes : Notes) (c : Contact)
    → c ∈ index
    → (reset_notes index notes c.addr).suppressed ≡ false
unfolding reset_notes
reset_notes-suppressed index notes c m =
    each_sets (λ c work. blank_note) (λ work. work.suppressed ≡ false) c.addr index notes c
      (λ d work n e. refl) m refl

module _ (local_node : ℕ) (index : List Contact) (notes : Notes) where
  abbrev ended : Notes
  ended = end_anchored_search local_node index notes

  pub end_anchored_search-IsCleared : Capacities index notes → IsCleared index ended
  unfolding end_anchored_search
  end_anchored_search-IsCleared capacities = record {
    unvisited = λ c m.
        each_sets (end_note local_node) (λ work. work.visited ≡ false) c.addr index notes c
          (λ d work n e. refl) m refl;
    unreached = λ c m.
        each_sets (end_note local_node) (λ work. work.arrival_time ≡ max_time) c.addr index notes c
          (λ d work n e. refl) m refl;
    capacity = λ c m.
        each_keeps (end_note local_node)
          (λ work. (work.capacity ≡ 0) ⊎ (work.capacity ≡ contact_capacity c)) c.addr index notes
          (λ d work n e q. ground arith) (capacities c m);
  }

  -- Initial contacts stay suppressed.
  pub end_anchored_search-suppressed :
      (c : Contact)
      → ((d : Contact) → d ∈ index → d.addr ≡ c.addr → d.from_node ≡ local_node)
      → (notes c.addr).suppressed ≡ true
      → (ended c.addr).suppressed ≡ true
  unfolding end_anchored_search
  end_anchored_search-suppressed c initial was =
      each_keeps (end_note local_node) (λ work. work.suppressed ≡ true) c.addr index notes
        (λ d work n e q. ground (arith, initial d n e)) was
