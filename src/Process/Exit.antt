-- ===== src/Process/Exit.antt =====
-- What `exit` does to each process, in the terms of the functions that it calls, and what the parent's `wait` then gets.
use mikos.Prelude.{
  ℕ, ◌≡◌, refl, ap, subst, ◌∙◌, List, [], ◌∷◌, Option, none, some, Bool, true, false, not, ◌&&◌,
  if◌then◌else◌, ◌==◌, arith, inl, inr, Bool-cases, Option-cases,
}
use mathlib.Core.Option.{map as map_option}
use mikos.Slots.{find_index}
use mikos.Process.{
  Process, success, Table, is_zombie, is_waiting, is_vfork_wait, find, at, modify, found,
}
use mikos.Process.Lifecycle.{
  wake, wake_vfork_parent, clear_vfork, has_adopter, adopt, reparent_children, end_with, exit,
}
use mikos.Process.Lookup.{Points, find-Points}
use mikos.Process.View.{
  found-cons, found-some, find-found, found-modify, find-modify, at-modify, woken, find-wake,
  found-wake, found-adopt_all,
}

abbrev pub is_some : Option Process → Bool
is_some none = false
is_some (some r) = true

-- The wake-up of the parent that a vfork suspended.
abbrev pub vfork_woken : ℕ → ℕ → Process → Process
vfork_woken v q x = if v == 0 then x else woken is_vfork_wait v q x

find-wake_vfork_parent : (rs : List Process) (i q : ℕ) → find (wake_vfork_parent rs i) q ≡ find rs q
unfolding wake_vfork_parent
find-wake_vfork_parent rs i q =
    let v = (at rs i).vfork_parent in
    ground (
      arith,
      find-wake is_vfork_wait refl rs v q,
      find-modify (wake is_vfork_wait rs v) i clear_vfork q,
    )

clear_vfork-id : (r : Process) → (r.vfork_parent == 0) ≡ true → clear_vfork r ≡ r
clear_vfork-id r h = ground arith

found-wake_vfork_parent :
    (rs : List Process) (c i q : ℕ)
    → find rs c ≡ some i
    → found (wake_vfork_parent rs i) q
      ≡ map_option
          (λ x.
            if q == c
            then clear_vfork (vfork_woken (at rs i).vfork_parent q x)
            else vfork_woken (at rs i).vfork_parent q x)
          (found rs q)
unfolding wake_vfork_parent
found-wake_vfork_parent rs c i q e = elim (Bool-cases (v == 0)) [
  | inl orphan ↦ elim (Option-cases (found rs q)) [
    | inl gone ↦ rw (gone, wake_vfork_parent) (ground arith)
    | inr (r, here) ↦ elim (Bool-cases (q == c)) [
      | inl it ↦
          let same : q ≡ c = ground arith in
          let record_i : r ≡ at rs i = cc (found-some rs c i e) in
          let clear = clear_vfork-id r (ground arith) in
          rw (here, wake_vfork_parent) (ground (arith, clear))
      | inr other ↦ rw (here, wake_vfork_parent) (ground arith)
    ]
  ]
  | inr forked ↦
      let asleep = wake is_vfork_wait rs v in
      let still : find asleep c ≡ some i = find-wake is_vfork_wait refl rs v c ∙ e in
      let changed = found-modify asleep c i clear_vfork q still (λ k. ground arith) in
      let before = found-wake is_vfork_wait refl rs v q in
      elim (Bool-cases (q == c)) [
        | inl it ↦
            let same : q ≡ c = ground arith in
            let now : found asleep q ≡ some (at asleep i) = cc (found-some asleep c i still) in
            let was : found rs q ≡ some (at rs i) = cc (found-some rs c i e) in
            let woken_i : map_option (woken is_vfork_wait v q) (found rs q)
                ≡ some (woken is_vfork_wait v q (at rs i)) =
              rw was refl in
            let body : at asleep i ≡ woken is_vfork_wait v q (at rs i) = cc in
            rw (was, wake_vfork_parent) (ground (arith, changed, body))
        | inr other ↦ elim (Option-cases (found rs q)) [
          | inl gone ↦
              let none_yet : found asleep q ≡ none = before ∙ rw gone refl in
              rw (gone, wake_vfork_parent) (ground (arith, changed))
          | inr (r, here) ↦
              let some_yet : found asleep q ≡ some (woken is_vfork_wait v q r) =
                before ∙ rw here refl in
              rw (here, wake_vfork_parent) (ground (arith, changed))
        ]
      ]
]
  where
    v : ℕ
    v = (at rs i).vfork_parent

has_adopter_lem :
    (c : ℕ) (rs : List Process) → has_adopter c rs ≡ (not (c == 1) && is_some (found rs 1))
unfolding has_adopter found find find_index
has_adopter_lem c [] = ground arith
has_adopter_lem c (r ∷ rs) = ground (arith, found-cons r rs 1, has_adopter_lem c rs)

-- The process that exits, and the parent that it was forked from by vfork.
abbrev pub ended : ℕ → ℕ → ℕ → ℕ → Process → Process
ended c status v q x = if q == c then clear_vfork (end_with status x) else vfork_woken v q x

-- Process `q` after the exit of process `c`, whose record was `r`.
abbrev pub after_exit : ℕ → ℕ → Process → ℕ → ℕ → Process → Process
after_exit c status r adopter q x =
    adopt c adopter (woken is_waiting r.parent q (ended c status r.vfork_parent q x))

-- Who gets the children of process `c`.
abbrev pub adopter_of : ℕ → List Process → ℕ
adopter_of c rs = if not (c == 1) && is_some (found rs 1) then 1 else 0

module _ (t : Table) (c i status : ℕ) (e : find t.records c ≡ some i)
    (alive : is_zombie (at t.records i).state ≡ false) where
  ending : Process
  ending = at t.records i

  zombies : List Process
  zombies = modify t.records i (end_with status)

  informed : List Process
  informed = wake_vfork_parent zombies i

  here : Points t.records c i
  here = find-Points t.records c i e

  at-zombies : at zombies i ≡ end_with status ending
  unfolding zombies ending
  at-zombies = at-modify t.records i (end_with status) here.within

  find-zombies : find zombies c ≡ some i
  unfolding zombies ending
  find-zombies = find-modify t.records i (end_with status) c (ground (arith, here, alive)) ∙ e

  found-informed :
      (q : ℕ)
      → found informed q ≡ map_option (ended c status ending.vfork_parent q) (found t.records q)
  unfolding informed zombies ending
  found-informed q =
      let v_same : (at zombies i).vfork_parent ≡ ending.vfork_parent =
        ap (λ x. x.vfork_parent) at-zombies in
      let told =
        subst
          (λ v.
            found informed q
            ≡ map_option
                (λ x. if q == c then clear_vfork (vfork_woken v q x) else vfork_woken v q x)
                (found zombies q))
          v_same (found-wake_vfork_parent zombies c i q find-zombies) in
      let changed =
        found-modify t.records c i (end_with status) q e (λ k. ground (arith, here, alive)) in
      elim (Bool-cases (q == c)) [
        | inl it ↦
            let same : q ≡ c = ground arith in
            let was : found t.records q ≡ some ending = cc (found-some t.records c i e) in
            let ends : found zombies q ≡ some (end_with status ending) = ground (arith, changed) in
            rw was (told ∙ rw ends (ground arith))
        | inr other ↦
            let keeps : found zombies q ≡ found t.records q = ground (arith, changed) in
            elim (Option-cases (found t.records q)) [
              | inl gone ↦ rw gone (told ∙ rw (keeps, gone) refl)
              | inr (x, there) ↦ rw there (told ∙ rw (keeps, there) (ground arith))
            ]
      ]

  parent_same : (at informed i).parent ≡ ending.parent
  unfolding informed ending
  parent_same =
      let now = found-some informed c i (find-wake_vfork_parent zombies i c ∙ find-zombies) in
      let was =
        found-informed c
        ∙ ap (map_option (ended c status ending.vfork_parent c)) (found-some t.records c i e) in
      let body : at informed i ≡ ended c status ending.vfork_parent c ending = cc in
      ap (λ x. x.parent) body ∙ ground arith

  awoken : List Process
  awoken = wake is_waiting informed (at informed i).parent

  found-awoken :
      (q : ℕ)
      → found awoken q
        ≡ map_option
            (λ x. woken is_waiting ending.parent q (ended c status ending.vfork_parent q x))
            (found t.records q)
  unfolding awoken
  found-awoken q =
      let told =
        subst (λ k. found awoken q ≡ map_option (woken is_waiting k q) (found informed q))
          parent_same (found-wake is_waiting refl informed (at informed i).parent q) in
      elim (Option-cases (found t.records q)) [
        | inl gone ↦ rw gone (told ∙ rw (found-informed q, gone) refl)
        | inr (x, there) ↦ rw there (told ∙ rw (found-informed q, there) refl)
      ]

  -- The adopter is looked for after the wake-ups, which do not change who is there.
  has_adopter-awoken : has_adopter c awoken ≡ (not (c == 1) && is_some (found t.records 1))
  has_adopter-awoken = has_adopter_lem c awoken ∙ elim (Option-cases (found t.records 1)) [
    | inl gone ↦ rw (found-awoken 1, gone) refl
    | inr (x, there) ↦ rw (found-awoken 1, there) refl
  ]

  exits : exit c status t ≡ (success, record t { records = reparent_children c awoken })
  unfolding exit awoken informed zombies
  exits = rw (e, alive, exit) refl

  found-adopted :
      (q : ℕ)
      → found (reparent_children c awoken) q
        ≡ map_option (after_exit c status ending (adopter_of c t.records) q) (found t.records q)
  unfolding reparent_children
  found-adopted q = rw has_adopter-awoken (
      found-adopt_all c (adopter_of c t.records) awoken q
      ∙ elim (Option-cases (found t.records q)) [
        | inl gone ↦ rw (found-awoken q, gone) refl
        | inr (x, there) ↦ rw (found-awoken q, there) refl
      ])

-- The exit of a process that is there and is no zombie succeeds. It makes that process a zombie with
-- the status and no address space, wakes the parent that a vfork of it suspended and the parent that
-- waits, hands its children to process 1, if that is there and another one, and to 0 otherwise, and
-- leaves every other process as it was.
pub exit-after_exit :
    (t : Table) (c status : ℕ) (r : Process)
    → found t.records c ≡ some r
    → is_zombie r.state ≡ false
    → ((exit c status t).0 ≡ success)
      × ((q : ℕ)
          → found (exit c status t).1.records q
            ≡ map_option (after_exit c status r (adopter_of c t.records) q) (found t.records q))
unfolding ending
exit-after_exit t c status r there alive =
    let (i, e, same) = find-found t.records c r there in
    subst
      (λ (x : Process).
        is_zombie x.state ≡ false
        → ((exit c status t).0 ≡ success)
          × ((q : ℕ)
              → found (exit c status t).1.records q
                ≡ map_option (after_exit c status x (adopter_of c t.records) q)
                    (found t.records q)))
      same (λ alive. rw (exits t c i status e alive) (refl, found-adopted t c i status e alive))
      alive
