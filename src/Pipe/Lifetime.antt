-- ===== src/Pipe/Lifetime.antt =====
-- From `create` to the last `release`: new handles, full tables, and handles that outlive their pipe.
use mikos.Prelude.{
  ℕ, zero, suc, ◌+◌, ◌%◌, ◌^◌, ◌≤◌, ◌<◌, ◌≡◌, ◌⊎◌, inl, inr, refl, ap, ap₂, ◌∙◌, [], ◌∷◌, none,
  some, true, false, not, arith, length, set, get_elem?, get_elem?-set_self, subst, get_or,
  get_elem?-eq-get_or, Option-cases,
}
use mikos.Slots.{
  Handle, same_handle, next_generation, next_generation-ne, next_generation-bounds, find_index,
  find_index-some, find_index-none, resolve-unused, resolve-some, All, All-get_elem?,
}
use mikos.Ring.Refine.{fresh_lem}
use mikos.Pipe.{
  End, read_end, write_end, ends, retire, Status, success, no_space, Limits, Pipe, Table, is_used,
  generation_of, vacant, opened, find, create, release, used,
}
use mikos.Pipe.Spec
use mikos.Pipe.Spec.{View, Views, update}
use mikos.Pipe.Invariant.{
  IsLimits, IsPipe, IsValid, view_pipe, view, view_of, vacant_lem, set-IsValid, view-set_new,
}
use mikos.Pipe.Refine.{release_refines}
use native.Mathlib.Decide.{ℕ_discrete}

used-le : (t : Table) → used t ≤ length t
unfolding used
used-le [] = omega arith
used-le (p ∷ t) = ground (arith, used-le t)

used-full : (t : Table) → All (λ p. not p.used ≡ false) t → used t ≡ length t
unfolding used
used-full [] h = refl
used-full (p ∷ t) h = ground (arith, used-full t h.1)

used-set :
    (t : Table) (i : ℕ) (p q : Pipe)
    → get_elem? t i ≡ some p
    → p.used ≡ false
    → q.used ≡ true
    → used (set t i q) ≡ used t + 1
unfolding used
used-set [] i p q e u u' = cc
used-set (x ∷ t) zero p q e u u' = ground arith
used-set (x ∷ t) (suc i) p q e u u' = ground (arith, used-set t i p q)

-- The view of a pipe just created.
abbrev pub new_view : View
new_view = record { queue = []; readers = 1; writers = 1 }

module _ (c : Limits) (limits : IsLimits c) where
  opened_lem : (g : ℕ) → g < 2 ^ 16 → IsPipe c (opened c g) × (view_pipe c (opened c g) ≡ new_view)
  unfolding opened vacant
  opened_lem g h = ground (arith, fresh_lem c.buffer limits.buffer_in, vacant_lem c limits)

  handle_at : ℕ → Pipe → Handle
  handle_at i p = record { generation = next_generation p.generation; slot = i }

  -- What `create` does where it finds the slot `i`, which held `p`.
  create-some :
      (t : Table) (i : ℕ) (p : Pipe)
      → IsValid c t
      → find_index (λ p. not p.used) t ≡ some i
      → get_elem? t i ≡ some p
      → i < c.table
      → create c t ≡ (success, handle_at i p, set t i (opened c (next_generation p.generation)))
  unfolding create handle_at
  create-some t i p v e at_i below = rw (e, create) (ap₂ made old same)
    where
      old : get_or t i (vacant c) ≡ p
      old = cc (at_i, get_elem?-eq-get_or t i (vacant c) (omega (arith, v.slots)))

      made : Pipe → ℕ → Status × Handle × Table
      made q j = (
        success,
        record { generation = next_generation q.generation; slot = j },
        set t i (opened c (next_generation q.generation)),
      )

      same : i % 256 ≡ i
      same = omega (arith, limits.table_in)

  Created : Table → Status → Handle → Table → Type 0
  Created t s h t' =
      (s ≡ success)
      × (view c t h ≡ none)
      × (view c t' ≡ update (view c t) h (some new_view))
      × (used t' ≡ used t + 1)

  created :
      (t : Table) (i : ℕ) (p : Pipe)
      → IsValid c t
      → get_elem? t i ≡ some p
      → p.used ≡ false
      → i < c.table
      → let g = next_generation p.generation in
        let t' = set t i (opened c g) in IsValid c t' × Created t success (handle_at i p) t'
  unfolding handle_at Created find opened
  created t i p v at_i free below = (
    set-IsValid c limits t i _ v fresh.0,
    (
      refl,
      ap (view_of c) (resolve-unused is_used generation_of c.table t _ at_i free),
      view-set_new c limits t (handle_at i p) p _ v below at_i free refl refl
          ∙ ap (λ w. update (view c t) (handle_at i p) (some w)) fresh.1,
      used-set t i p _ at_i free refl,
    ),
  )
    where
      fresh :
          IsPipe c (opened c (next_generation p.generation))
          × (view_pipe c (opened c (next_generation p.generation)) ≡ new_view)
      fresh = opened_lem (next_generation p.generation) (next_generation-bounds p.generation).1

  -- A pipe is made where a slot is free, for a handle that named nothing before; a table has no
  -- room only if every slot is in use.
  pub create_refines :
      (t : Table)
      → IsValid c t
      → let (s, h, t') = create c t in
        IsValid c t'
        × (((s ≡ success)
              × (view c t h ≡ none)
              × (view c t' ≡ update (view c t) h (some new_view))
              × (used t' ≡ used t + 1))
            ⊎ ((s ≡ no_space) × (t' ≡ t) × (used t ≡ c.table)))
  unfolding create Created
  create_refines t v = elim (Option-cases (find_index (λ p. not p.used) t)) [
    | inl e ↦ rw (e, create) (v, inr (refl, refl, used-full t (find_index-none _ t e) ∙ v.slots))
    | inr (i, e) ↦
        let (p, at_i, unused, below) = find_index-some _ t i e in
        let made = created t i p v at_i (ground arith) (omega (arith, v.slots)) in
        rw (create-some t i p v e at_i (omega (arith, v.slots))) (made.0, inl made.1)
  ]

  -- A slot that its occupant gave up answers to no handle of that generation, nor does the next
  -- occupant.
  spent-create :
      (t : Table) (h : Handle) (p : Pipe)
      → IsValid c t
      → get_elem? t h.slot ≡ some p
      → p.used ≡ false
      → p.generation ≡ h.generation
      → view c (create c t).2 h ≡ none
  unfolding create find Created handle_at
  spent-create t h p v at_h free same = elim (Option-cases (find_index (λ p. not p.used) t)) [
    | inl e ↦ rw (e, create) gone
    | inr (i, e) ↦
        let (q, at_i, unused, below) = find_index-some _ t i e in
        let made = created t i q v at_i (ground arith) (omega (arith, v.slots)) in
        rw (create-some t i q v e at_i (omega (arith, v.slots)))
          (ap (λ (w : Views). w h) made.1.2 ∙ rw (other i q at_i) gone)
  ]
    where
      gone : view c t h ≡ none
      gone = ap (view_of c) (resolve-unused is_used generation_of c.table t h at_h free)

      other : (i : ℕ) (q : Pipe) → get_elem? t i ≡ some q → same_handle (handle_at i q) h ≡ false
      other i q at_i = elim (ℕ_discrete i h.slot) [
        | yes here ↦
            let held : q ≡ p = cc (subst (λ k. get_elem? t k ≡ some q) here at_i) in
            let fits : q.generation ≡ h.generation = ap generation_of held ∙ same in
            let bounded : p.generation < 2 ^ 16 =
              (All-get_elem? (IsPipe c) t h.slot v.pipes at_h).generation_in in
            ground (
              arith,
              ap next_generation fits,
              next_generation-ne h.generation (omega (arith, same)),
            )
        | no away ↦ ground arith
      ]

  -- What is left of a pipe whose last reference is given up.
  release_last :
      (t : Table) (h : Handle) (end : End) (p : Pipe)
      → find c t h ≡ some p
      → ends end p ≡ 1
      → p.readers + p.writers ≡ 1
      → release c t h end
        ≡ (success, set t h.slot (record (vacant c) { generation = p.generation }))
  unfolding release retire
  release_last t h read_end p e one last = ground arith
  release_last t h write_end p e one last = ground arith

  ends-view : (end : End) (p : Pipe) → ends end p ≡ Spec.ends end (view_pipe c p)
  ends-view read_end p = refl
  ends-view write_end p = refl

  release_spent :
      (t : Table) (h : Handle) (end : End) (p : Pipe)
      → IsValid c t
      → find c t h ≡ some p
      → ends end p ≡ 1
      → p.readers + p.writers ≡ 1
      → let (s, t') = release c t h end in
        (s ≡ success) × (view c t' h ≡ none) × (view c (create c t').2 h ≡ none)
  unfolding vacant find
  release_spent t h end p v found one last = rw (release_last t h end p found one last) (
    refl,
    ap (view_of c) (resolve-unused is_used generation_of c.table left h there refl),
    spent-create left h _ kept there refl named.3,
  )
    where
      left : Table
      left = set t h.slot (record (vacant c) { generation = p.generation })

      named :
          (h.slot < c.table)
          × (get_elem? t h.slot ≡ some p)
          × (p.used ≡ true)
          × (p.generation ≡ h.generation)
      named = resolve-some is_used generation_of c.table t h p found

      there : get_elem? left h.slot ≡ some (record (vacant c) { generation = p.generation })
      there = get_elem?-set_self t h.slot _ (omega (arith, named.0, v.slots))

      kept : IsValid c left
      kept = rw (release_last t h end p found one last) at (release_refines c limits t h end v).0

  -- Once its last reference is given up, a handle names nothing, and the next pipe to be made does
  -- not answer to it, wherever that pipe is put.
  pub release-create :
      (t : Table) (h : Handle) (end : End) (v : View)
      → IsValid c t
      → view c t h ≡ some v
      → Spec.ends end v ≡ 1
      → v.readers + v.writers ≡ 1
      → let (s, t') = release c t h end in
        (s ≡ success) × (view c t' h ≡ none) × (view c (create c t').2 h ≡ none)
  release-create t h end v valid e one last = elim (Option-cases (find c t h)) [
    | inl missing ↦ cc (ap (view_of c) missing)
    | inr (p, found) ↦
        let same : view_pipe c p ≡ v = cc (ap (view_of c) found) in
        release_spent t h end p valid found (ends-view end p ∙ ap (Spec.ends end) same ∙ one)
          (ap (λ (w : View). w.readers + w.writers) same ∙ last)
  ]
