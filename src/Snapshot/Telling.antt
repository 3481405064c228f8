-- ===== src/Snapshot/Telling.antt =====
-- What the placement that `release` chooses tells: whether the extent overlaps with a free one, and
-- whether it touches one.
use mikos.Prelude.{
  if_intro, ℕ, ◌+◌, ◌≤◌, ◌<◌, ◌≡◌, refl, List, [], ◌∷◌, some, Bool, true, false, ◌&&◌, ◌||◌,
  if◌then◌else◌, ◌==◌, ltb, u32, arith, inl, inr, Bool-cases,
}
use mikos.Snapshot.{
  Extent, Placed, overlap, joined, apart, place, position, insert, erase, past, before,
  meets_previous, meets_next, grown,
}
use mikos.Snapshot.Extents.{Chain, Chain-le}
use mikos.Snapshot.Placing.{Fits, cons_placed, place-suc}

-- Whether two extents share an address, and whether one ends where the other starts.
abbrev pub overlaps : Extent → Extent → Bool
overlaps e x = ltb e.address (x.address + x.size) && ltb x.address (e.address + e.size)

abbrev pub touches : Extent → Extent → Bool
touches e x = e.address + e.size == x.address || x.address + x.size == e.address

unfoldable pub any_overlaps : List Extent → Extent → Bool
any_overlaps [] x = false
any_overlaps (e ∷ es) x = overlaps e x || any_overlaps es x

unfoldable pub any_touches : List Extent → Extent → Bool
any_touches [] x = false
any_touches (e ∷ es) x = touches e x || any_touches es x

-- What a placement tells of the extents.
abbrev pub Tells : List Extent → Extent → Placed → Type 0
Tells es x overlap = any_overlaps es x ≡ true
Tells es x (joined es') = (any_overlaps es x ≡ false) × (any_touches es x ≡ true)
Tells es x (apart es') = (any_overlaps es x ≡ false) × (any_touches es x ≡ false)

-- Extents that start behind `x`.
behind_overlaps :
    (lo hi : ℕ) (es : List Extent) (x : Extent)
    → Chain lo es hi
    → x.address + x.size ≤ lo
    → any_overlaps es x ≡ false
unfolding any_overlaps
behind_overlaps lo hi [] x c le = refl
behind_overlaps lo hi (e ∷ es) x c le =
    ground (arith, behind_overlaps (e.address + e.size) hi es x c.4)

behind_touches :
    (lo hi : ℕ) (es : List Extent) (x : Extent)
    → Chain lo es hi
    → x.address + x.size < lo
    → any_touches es x ≡ false
unfolding any_touches
behind_touches lo hi [] x c lt = refl
behind_touches lo hi (e ∷ es) x c lt =
    ground (arith, behind_touches (e.address + e.size) hi es x c.4)

Tells-front :
    (lo hi : ℕ) (e : Extent) (es : List Extent) (x : Extent)
    → Fits lo hi x
    → Chain lo (e ∷ es) hi
    → x.address ≤ e.address
    → Tells (e ∷ es) x (place (e ∷ es) 0 x)
unfolding place insert any_overlaps any_touches
Tells-front lo hi e es x f c le =
    let far = behind_overlaps (e.address + e.size) hi es x c.4 in
    let apart_from = behind_touches (e.address + e.size) hi es x c.4 in
    if_intro (Tells (e ∷ es) x) (before x (some e)) overlap
      (if meets_next x (some e) then joined (grown_front ∷ es) else apart (x ∷ e ∷ es))
      (λ over. ground arith)
      (λ clear.
        if_intro (Tells (e ∷ es) x) (meets_next x (some e)) (joined (grown_front ∷ es))
          (apart (x ∷ e ∷ es)) (λ meets. ground (arith, far))
          (λ away. ground (arith, far, apart_from)))
  where
    grown_front : Extent
    grown_front = record { address = x.address; size = u32 (e.size + x.size) }

Tells-back :
    (lo hi : ℕ) (e : Extent) (x : Extent)
    → Fits lo hi x
    → Chain lo (e ∷ []) hi
    → e.address < x.address
    → Tells (e ∷ []) x (place (e ∷ []) 1 x)
unfolding place insert any_overlaps any_touches
Tells-back lo hi e x f c lt =
    if_intro (Tells (e ∷ []) x) (past (some e) x || false) overlap
      (if meets_previous (some e) x
        then joined (grown (some e) x.size ∷ [])
        else apart (e ∷ x ∷ []))
      (λ over. ground arith)
      (λ clear.
        if_intro (Tells (e ∷ []) x) (meets_previous (some e) x)
          (joined (grown (some e) x.size ∷ [])) (apart (e ∷ x ∷ [])) (λ meets. ground arith)
          (λ away. ground arith))

Tells-between :
    (lo hi : ℕ) (e n : Extent) (es : List Extent) (x : Extent)
    → Fits lo hi x
    → Chain lo (e ∷ n ∷ es) hi
    → e.address < x.address
    → x.address ≤ n.address
    → Tells (e ∷ n ∷ es) x (place (e ∷ n ∷ es) 1 x)
unfolding place insert erase any_overlaps any_touches
Tells-between lo hi e n es x f c lt le =
    let far = behind_overlaps (n.address + n.size) hi es x c.4.4 in
    let apart_from = behind_touches (n.address + n.size) hi es x c.4.4 in
    let bound = Chain-le (n.address + n.size) hi es c.4.4 in
    if_intro (Tells (e ∷ n ∷ es) x) (past (some e) x || before x (some n)) overlap clear_case
      (λ over. ground (arith, bound))
      (λ clear.
        if_intro (Tells (e ∷ n ∷ es) x) (meets_previous (some e) x) prev_case next_case
          (λ meets_e.
            if_intro (Tells (e ∷ n ∷ es) x) (meets_next x (some n))
              (joined (grown (some e) (x.size + n.size) ∷ es))
              (joined (grown (some e) x.size ∷ n ∷ es)) (λ meets_n. ground (arith, bound, far))
              (λ away_n. ground (arith, bound, far)))
          (λ away_e.
            if_intro (Tells (e ∷ n ∷ es) x) (meets_next x (some n)) (joined (e ∷ grown_next ∷ es))
              (apart (e ∷ x ∷ n ∷ es)) (λ meets_n. ground (arith, bound, far))
              (λ away_n. ground (arith, bound, far, apart_from))))
  where
    grown_next : Extent
    grown_next = record { address = x.address; size = u32 (n.size + x.size) }

    prev_case : Placed
    prev_case =
        if meets_next x (some n)
        then joined (grown (some e) (x.size + n.size) ∷ es)
        else joined (grown (some e) x.size ∷ n ∷ es)

    next_case : Placed
    next_case =
        if meets_next x (some n) then joined (e ∷ grown_next ∷ es) else apart (e ∷ x ∷ n ∷ es)

    clear_case : Placed
    clear_case = if meets_previous (some e) x then prev_case else next_case

Tells-cons :
    (e : Extent) (es : List Extent) (x : Extent) (p : Placed)
    → 0 < x.size
    → e.address + e.size < x.address
    → Tells es x p
    → Tells (e ∷ es) x (cons_placed e p)
unfolding any_overlaps any_touches
Tells-cons e es x overlap pos le t = ground (arith, t)
Tells-cons e es x (joined es') pos le t = ground (arith, t)
Tells-cons e es x (apart es') pos le t = ground (arith, t)

pub place-Tells :
    (lo hi : ℕ) (es : List Extent) (x : Extent)
    → Fits lo hi x
    → Chain lo es hi
    → Tells es x (place es (position x.address es) x)
unfolding position place insert any_overlaps any_touches
place-Tells lo hi [] x f c = (refl, refl)
place-Tells lo hi (e ∷ []) x f c = elim (Bool-cases (ltb e.address x.address)) [
  | inl below ↦ rw (below, position) (Tells-back lo hi e x f c (ground arith))
  | inr above ↦ rw (above, position) (Tells-front lo hi e [] x f c (ground arith))
]
place-Tells lo hi (e ∷ n ∷ es) x f c = elim (Bool-cases (ltb e.address x.address)) [
  | inr above ↦ rw (above, position) (Tells-front lo hi e (n ∷ es) x f c (ground arith))
  | inl below ↦ elim (Bool-cases (ltb n.address x.address)) [
    | inr between ↦
        rw (below, between) (Tells-between lo hi e n es x f c (ground arith) (ground arith))
    | inl further ↦
        rw (below, further)
          (rw (place-suc e (n ∷ es) (position x.address es) x) (
            Tells-cons e (n ∷ es) x _ f.some_size (ground arith) (
              rw further at
                (place-Tells (e.address + e.size) hi (n ∷ es) x (later (ground arith)) c.4))))
  ]
]
  where
    later : e.address + e.size ≤ x.address → Fits (e.address + e.size) hi x
    later h = record {
      from = h;
      to = f.to;
      bounded = f.bounded;
      some_size = f.some_size;
      aligned = f.aligned;
      size_aligned = f.size_aligned;
    }
