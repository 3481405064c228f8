-- ===== src/Snapshot/Placing.antt =====
-- Where `release` puts an extent back: in order, joined with its neighbours, and never over one.
use mikos.Prelude.{
  if_intro, ℕ, suc, ◌+◌, ◌%◌, ◌^◌, ◌≤◌, ◌<◌, ◌≡◌, List, [], ◌∷◌, some, true, false, ◌&&◌, ◌||◌,
  if◌then◌else◌, ltb, u32, arith, length, inl, inr, Bool-cases,
}
use mikos.Snapshot.{
  Extent, Placed, overlap, joined, apart, place, position, insert, erase, past, before,
  meets_previous, meets_next, grown,
}
use mikos.Snapshot.Extents.{Chain, total, inside, is_free, Chain-le, Chain-weaken, is_free_below}

-- The extent that `release` gives back, between the bounds of the free ones.
pub record Fits (lo hi : ℕ) (x : Extent) : Type 0 where
  pub from : lo ≤ x.address
  pub to : x.address + x.size ≤ hi
  pub bounded : hi < 2 ^ 32
  pub some_size : 0 < x.size
  pub aligned : x.address % 16 ≡ 0
  pub size_aligned : x.size % 16 ≡ 0

-- What is known of the extents after, and of the address `k`.
abbrev pub Kept : ℕ → ℕ → List Extent → Extent → ℕ → List Extent → Type 0
Kept lo hi es x k es' =
    Chain lo es' hi
    × (total es' ≡ total es + x.size)
    × (is_free es' k ≡ (is_free es k || inside x k))
    × ((is_free es k && inside x k) ≡ false)

abbrev pub Good : ℕ → ℕ → List Extent → Extent → ℕ → Placed → Type 0
Good lo hi es x k overlap = (j : ℕ) × (inside x j ≡ true) × (is_free es j ≡ true)
Good lo hi es x k (joined es') = Kept lo hi es x k es' × (length es' ≤ length es)
Good lo hi es x k (apart es') = Kept lo hi es x k es' × (length es' ≡ length es + 1)

-- Put back before all others.
place_front :
    (lo hi : ℕ) (e : Extent) (es : List Extent) (x : Extent) (k : ℕ)
    → Fits lo hi x
    → Chain lo (e ∷ es) hi
    → x.address ≤ e.address
    → Good lo hi (e ∷ es) x k (place (e ∷ es) 0 x)
unfolding place insert
place_front lo hi e es x k f c le =
    if_intro (Good lo hi (e ∷ es) x k) (before x (some e)) overlap
      (if meets_next x (some e) then joined (grown_front ∷ es) else apart (x ∷ e ∷ es))
      (λ over. (e.address, ground arith, ground arith))
      (λ clear.
        if_intro (Good lo hi (e ∷ es) x k) (meets_next x (some e)) (joined (grown_front ∷ es))
          (apart (x ∷ e ∷ es))
          (λ meets. ground (
            arith,
            Chain-le (e.address + e.size) hi es c.4,
            Chain-weaken (x.address + u32 (e.size + x.size)) (e.address + e.size) hi es,
            is_free_below (e.address + e.size) hi es k c.4,
          ))
          (λ away. ground (
            arith,
            Chain-le (e.address + e.size) hi es c.4,
            is_free_below (e.address + e.size) hi es k c.4,
          )))
  where
    grown_front : Extent
    grown_front = record { address = x.address; size = u32 (e.size + x.size) }

-- Put back as the last.
place_back :
    (lo hi : ℕ) (e : Extent) (x : Extent) (k : ℕ)
    → Fits lo hi x
    → Chain lo (e ∷ []) hi
    → e.address < x.address
    → Good lo hi (e ∷ []) x k (place (e ∷ []) 1 x)
unfolding place insert
place_back lo hi e x k f c lt =
    if_intro (Good lo hi (e ∷ []) x k) (past (some e) x || false) overlap
      (if meets_previous (some e) x
        then joined (grown (some e) x.size ∷ [])
        else apart (e ∷ x ∷ []))
      (λ over. (x.address, ground arith, ground arith))
      (λ clear.
        if_intro (Good lo hi (e ∷ []) x k) (meets_previous (some e) x)
          (joined (grown (some e) x.size ∷ [])) (apart (e ∷ x ∷ [])) (λ meets. ground arith)
          (λ away. ground arith))

-- Put back between two.
place_between :
    (lo hi : ℕ) (e n : Extent) (es : List Extent) (x : Extent) (k : ℕ)
    → Fits lo hi x
    → Chain lo (e ∷ n ∷ es) hi
    → e.address < x.address
    → x.address ≤ n.address
    → Good lo hi (e ∷ n ∷ es) x k (place (e ∷ n ∷ es) 1 x)
unfolding place insert erase
place_between lo hi e n es x k f c lt le =
    if_intro (Good lo hi (e ∷ n ∷ es) x k) (past (some e) x || before x (some n)) overlap clear_case
      (λ over. elim (Bool-cases (past (some e) x)) [
        | inl p ↦ (x.address, ground arith, ground arith)
        | inr q ↦ (n.address, ground arith, ground arith)
      ])
      (λ clear.
        if_intro (Good lo hi (e ∷ n ∷ es) x k) (meets_previous (some e) x) prev_case next_case
          (λ meets_e.
            if_intro (Good lo hi (e ∷ n ∷ es) x k) (meets_next x (some n)) both one_case
              (λ meets_n. ground (
                arith,
                Chain-le (n.address + n.size) hi es c.4.4,
                Chain-weaken (e.address + u32 (e.size + (x.size + n.size))) (n.address + n.size) hi
                    es,
                is_free_below (n.address + n.size) hi es k c.4.4,
              ))
              (λ away_n. ground (
                arith,
                Chain-le (n.address + n.size) hi es c.4.4,
                is_free_below (n.address + n.size) hi es k c.4.4,
              )))
          (λ away_e.
            if_intro (Good lo hi (e ∷ n ∷ es) x k) (meets_next x (some n))
              (joined (e ∷ grown_next ∷ es)) (apart (e ∷ x ∷ n ∷ es))
              (λ meets_n. ground (
                arith,
                Chain-le (n.address + n.size) hi es c.4.4,
                Chain-weaken (x.address + u32 (n.size + x.size)) (n.address + n.size) hi es,
                is_free_below (n.address + n.size) hi es k c.4.4,
              ))
              (λ away_n. ground (
                arith,
                Chain-le (n.address + n.size) hi es c.4.4,
                is_free_below (n.address + n.size) hi es k c.4.4,
              ))))
  where
    grown_next : Extent
    grown_next = record { address = x.address; size = u32 (n.size + x.size) }

    both : Placed
    both = joined (grown (some e) (x.size + n.size) ∷ es)

    one_case : Placed
    one_case = joined (grown (some e) x.size ∷ n ∷ es)

    prev_case : Placed
    prev_case = if meets_next x (some n) then both else one_case

    next_case : Placed
    next_case =
        if meets_next x (some n) then joined (e ∷ grown_next ∷ es) else apart (e ∷ x ∷ n ∷ es)

    clear_case : Placed
    clear_case = if meets_previous (some e) x then prev_case else next_case

abbrev pub cons_placed : Extent → Placed → Placed
cons_placed e overlap = overlap
cons_placed e (joined es) = joined (e ∷ es)
cons_placed e (apart es) = apart (e ∷ es)

-- An extent before the previous one is passed by.
pub place-suc :
    (e : Extent) (es : List Extent) (j : ℕ) (x : Extent)
    → place (e ∷ es) (suc (suc j)) x ≡ cons_placed e (place es (suc j) x)
unfolding place insert erase
place-suc e es j x = ground arith

Good-cons :
    (lo hi : ℕ) (e : Extent) (es : List Extent) (x : Extent) (k : ℕ) (p : Placed)
    → Fits lo hi x
    → Chain lo (e ∷ es) hi
    → e.address + e.size ≤ x.address
    → Good (e.address + e.size) hi es x k p
    → Good lo hi (e ∷ es) x k (cons_placed e p)
Good-cons lo hi e es x k overlap f c le g = (g.0, g.1, ground (arith, g.2))
Good-cons lo hi e es x k (joined es') f c le g = ground arith
Good-cons lo hi e es x k (apart es') f c le g = ground arith

-- `release` refuses an extent that is free in part, and otherwise frees just that extent.
pub place-position :
    (lo hi : ℕ) (es : List Extent) (x : Extent) (k : ℕ)
    → Fits lo hi x
    → Chain lo es hi
    → Good lo hi es x k (place es (position x.address es) x)
unfolding position place insert
place-position lo hi [] x k f c = ground arith
place-position lo hi (e ∷ []) x k f c = elim (Bool-cases (ltb e.address x.address)) [
  | inl below ↦ rw (below, position) (place_back lo hi e x k f c (ground arith))
  | inr above ↦ rw (above, position) (place_front lo hi e [] x k f c (ground arith))
]
place-position lo hi (e ∷ n ∷ es) x k f c = elim (Bool-cases (ltb e.address x.address)) [
  | inr above ↦ rw (above, position) (place_front lo hi e (n ∷ es) x k f c (ground arith))
  | inl below ↦ elim (Bool-cases (ltb n.address x.address)) [
    | inr between ↦
        rw (below, between) (place_between lo hi e n es x k f c (ground arith) (ground arith))
    | inl further ↦
        rw (below, further)
          (rw (place-suc e (n ∷ es) (position x.address es) x) (
            Good-cons lo hi e (n ∷ es) x k _ f c (ground arith) (
              rw further at
                (place-position (e.address + e.size) hi (n ∷ es) x k (later (ground arith)) c.4))))
  ]
]
  where
    later : e.address + e.size ≤ x.address → Fits (e.address + e.size) hi x
    later h = record {
      from = h;
      to = f.to;
      bounded = f.bounded;
      some_size = f.some_size;
      aligned = f.aligned;
      size_aligned = f.size_aligned;
    }
