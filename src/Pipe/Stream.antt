-- ===== src/Pipe/Stream.antt =====
-- A client's writes to a pipe and reads from it, in any order, through one handle.
use mikos.Prelude.{
  ℕ, ◌≤◌, ◌≡◌, refl, ap, ◌∙◌, sym, subst, List, [], ◌∷◌, ◌++◌, append-nil, append_assoc, Option,
  some, true, arith, length, min, take, drop, take-append-drop,
}
use mikos.Slots.{Handle, same_handle}
use mikos.Pipe.{Status, Limits, Table, read, write}
use mikos.Pipe.Spec
use mikos.Pipe.Spec.{View, Views, update}
use mikos.Pipe.Invariant.{IsLimits, IsValid, view}
use mikos.Pipe.Refine.{write_refines, read_refines}

pub data Call : Type 0 where
  put : List ℕ → Call
  get : ℕ → Call

-- The bytes that the pipe took, the bytes that it handed over, and the table after.
pub run : Limits → Handle → Table → List Call → List ℕ × List ℕ × Table
run c h t [] = ([], [], t)
run c h t (put input ∷ calls) =
    let (s, n, t') = write c t h input (length input) in
    let (taken, given, t'') = run c h t' calls in (take n input ++ taken, given, t'')
run c h t (get count ∷ calls) =
    let (s, n, out, t') = read c t h count in
    let (taken, given, t'') = run c h t' calls in (taken, out ++ given, t'')

-- A step of the views at a handle that names `v`.
Put : View → ℕ → List ℕ → Option View → Type 0
Put v n input o = (w : View) × (o ≡ some w) × (w.queue ≡ v.queue ++ take n input)

Got : View → List ℕ → Option View → Type 0
Got v out o = (w : View) × (o ≡ some w) × (v.queue ≡ out ++ w.queue)

same_refl : (h : Handle) → same_handle h h ≡ true
same_refl h = ground arith

put_lem :
    (c : Limits) (a : Views) (h : Handle) (input : List ℕ) (count : ℕ) (v : View)
    → a h ≡ some v
    → let (s, n, a') = Spec.write c a h input count in Put v n input (a' h)
unfolding Put
put_lem c a h input count v e = (
  record v { queue = v.queue ++ take (Spec.write c a h input count).1 input },
  ground (arith, append-nil v.queue),
  refl,
)

got_lem :
    (a : Views) (h : Handle) (count : ℕ) (v : View)
    → a h ≡ some v
    → let (s, n, out, a') = Spec.read a h count in Got v out (a' h)
unfolding Got
got_lem a h count v e = (
  record v { queue = drop (Spec.read a h count).1 v.queue },
  ground arith,
  ground (arith, take-append-drop (min count (length v.queue)) v.queue),
)

module _ (c : Limits) (limits : IsLimits c) (h : Handle) where
  stored_at :
      (t : Table) (input : List ℕ) (count : ℕ) (v : View)
      → count ≤ length input
      → IsValid c t
      → view c t h ≡ some v
      → let (s, n, t') = write c t h input count in Put v n input (view c t' h)
  stored_at t input count v src valid e =
      subst (λ (r : Status × ℕ × Views). Put v r.1 input (r.2 h))
        (sym (write_refines c limits t h input count src valid).1)
        (put_lem c (view c t) h input count v e)

  fetched_at :
      (t : Table) (count : ℕ) (v : View)
      → IsValid c t
      → view c t h ≡ some v
      → let (s, n, out, t') = read c t h count in Got v out (view c t' h)
  fetched_at t count v valid e =
      subst (λ (r : Status × ℕ × List ℕ × Views). Got v r.2 (r.3 h))
        (sym (read_refines c limits t h count valid).1) (got_lem (view c t) h count v e)

  -- What was in the pipe and what it took since comes out in order, or is still in it.
  pub run_fifo :
      (calls : List Call) (t : Table) (v : View)
      → IsValid c t
      → view c t h ≡ some v
      → let (taken, given, t') = run c h t calls in
        (w : View) × (view c t' h ≡ some w) × (v.queue ++ taken ≡ given ++ w.queue)
  unfolding run Put Got
  run_fifo [] t v valid e = (v, e, append-nil v.queue)
  run_fifo (put input ∷ calls) t v valid e =
      let (_, n, t') = write c t h input (length input) in
      let kept = write_refines c limits t h input (length input) (omega arith) valid in
      let (w, named, stored) = stored_at t input (length input) v (omega arith) valid e in
      let (z, at_z, rest) = run_fifo calls t' w kept.0 named in
      (
        z,
        at_z,
        sym (append_assoc v.queue (take n input) _)
            ∙ ap (λ q. q ++ (run c h t' calls).0) (sym stored)
            ∙ rest,
      )
  run_fifo (get count ∷ calls) t v valid e =
      let (_, n, out, t') = read c t h count in
      let kept = read_refines c limits t h count valid in
      let (w, named, fetched) = fetched_at t count v valid e in
      let (z, at_z, rest) = run_fifo calls t' w kept.0 named in
      (
        z,
        at_z,
        ap (λ q. q ++ (run c h t' calls).0) fetched
            ∙ append_assoc out w.queue _
            ∙ ap (◌++◌ out) rest
            ∙ sym (append_assoc out (run c h t' calls).1 z.queue),
      )
