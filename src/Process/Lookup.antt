-- ===== src/Process/Lookup.antt =====
-- Records found by pid and written back by index.
use mikos.Prelude.{
  ℕ, zero, suc, ◌+◌, ◌≤◌, ◌<◌, ◌≡◌, ap, ◌∙◌, List, [], ◌∷◌, some, Bool, true, false, not, ◌&&◌,
  ◌||◌, ◌==◌, leb, arith, length, length-set, get_elem?, get_or, set, get_elem?-eq-get_or,
}
use mikos.Slots.{All, All-set, All-get_elem?, find_index-some}
use mikos.Process.{Process, vacant, is_free, is_zombie, has_pid, find, at, modify}

abbrev pub to_ℕ : Bool → ℕ
to_ℕ true = 1
to_ℕ false = 0

-- How many records answer to a pid.
abbrev pub count : ℕ → List Process → ℕ
count p [] = 0
count p (r ∷ rs) = to_ℕ (has_pid p r) + count p rs

-- What `find` points to.
pub record Points (rs : List Process) (p i : ℕ) : Type 0 where
  pub within : i < length rs
  pub there : get_elem? rs i ≡ some (at rs i)
  pub answers : has_pid p (at rs i) ≡ true

pub find-Points : (rs : List Process) (p i : ℕ) → find rs p ≡ some i → Points rs p i
unfolding find at
find-Points rs p i e =
    let (r, at_i, fits, below) = find_index-some (has_pid p) rs i e in
    let same : get_or rs i vacant ≡ r = cc (at_i, get_elem?-eq-get_or rs i vacant below) in
    record {
      within = below;
      there = get_elem?-eq-get_or rs i vacant below;
      answers = ap (has_pid p) same ∙ fits;
    }

pub count-set :
    (p : ℕ) (rs : List Process) (i : ℕ) (r : Process)
    → i < length rs
    → count p (set rs i r) + to_ℕ (has_pid p (at rs i)) ≡ count p rs + to_ℕ (has_pid p r)
unfolding at
count-set p [] i r h = absurd (omega arith)
count-set p (x ∷ rs) zero r h = omega arith
count-set p (x ∷ rs) (suc i) r h = omega (arith, count-set p rs i r)

-- A record on its own: what `invariant` asks of it, and that its pid was given out before `next`.
pub record RecordOk (next : ℕ) (r : Process) : Type 0 where
  pub free_clear : (is_free r.state && (not (r.pid == 0) || r.address_space)) ≡ false
  pub live_named :
      (not (is_free r.state)
        && (r.pid == 0
            || r.process_group == 0
            || r.session == 0
            || (is_zombie r.state && r.address_space)))
      ≡ false
  pub given_out : (not (is_free r.state) && not (next == 0) && leb next r.pid) ≡ false

-- All records are, and at most one answers to `p`.
pub record Good (p next : ℕ) (rs : List Process) : Type 0 where
  pub each : All (RecordOk next) rs
  pub unique : count p rs ≤ 1

pub at-RecordOk :
    (next : ℕ) (rs : List Process) (i : ℕ)
    → All (RecordOk next) rs
    → i < length rs
    → RecordOk next (at rs i)
unfolding at
at-RecordOk next rs i all h =
    All-get_elem? (RecordOk next) rs i all (get_elem?-eq-get_or rs i vacant h)

-- Writing a record back keeps the table good if it answers to `p` only where the old one did.
pub modify-Good :
    (p next : ℕ) (rs : List Process) (i : ℕ) (f : Process → Process)
    → Good p next rs
    → i < length rs
    → RecordOk next (f (at rs i))
    → (has_pid p (f (at rs i)) && not (has_pid p (at rs i))) ≡ false
    → Good p next (modify rs i f)
unfolding modify
modify-Good p next rs i f g h ok same = record {
  each = All-set (RecordOk next) rs i g.each ok;
  unique = ground (arith, count-set p rs i (f (at rs i)) h, g.unique);
}

pub length-modify :
    (rs : List Process) (i : ℕ) (f : Process → Process) → length (modify rs i f) ≡ length rs
unfolding modify
length-modify rs i f = length-set rs i (f (at rs i))
