-- ===== src/Net/Ending.antt =====
-- The loop of parse_tcp_options ends: each round that goes on takes at least a byte, so that more fuel
-- changes nothing, whatever the bytes.
use mikos.Prelude.{
  ℕ, zero, suc, ◌+◌, ◌<◌, ◌≡◌, refl, ap, ◌∙◌, List, [], ◌∷◌, Option, none, some, Bool, ◌||◌,
  if◌then◌else◌, ◌==◌, ltb, arith, length, length-drop, take, drop, if_intro,
}
use mikos.Net.{read8}
use mikos.Net.Options.{
  TcpOptions, no_options, Next, answer, go, go_on, take_option, next_option, parse_from,
  parse_tcp_options,
}

abbrev Shrinks : List ℕ → Next → Type 0
Shrinks bytes (answer o) = Unit
Shrinks bytes (go r rest) = length rest < length bytes

go_on-Shrinks :
    (bytes rest : List ℕ) (o : Option TcpOptions)
    → length rest < length bytes
    → Shrinks bytes (go_on o rest)
go_on-Shrinks bytes rest none less = tt
go_on-Shrinks bytes rest (some r) less = less

next_option-Shrinks : (r : TcpOptions) (bytes : List ℕ) → Shrinks bytes (next_option r bytes)
unfolding next_option
next_option-Shrinks r [] = tt
next_option-Shrinks r (kind ∷ rest) =
    if_intro (Shrinks bytes) (kind == 0) (answer (some r)) padded (λ e. tt)
      (λ more.
        if_intro (Shrinks bytes) (kind == 1) (go r rest) framed (λ e. omega arith)
          (λ other.
            if_intro (Shrinks bytes) misframed (answer none) cut (λ e. tt)
              (λ fits.
                go_on-Shrinks bytes (drop size bytes) (take_option kind (take size bytes) r)
                  (ground (arith, fits, length-drop size bytes)))))
  where
    bytes : List ℕ
    bytes = kind ∷ rest

    size : ℕ
    size = read8 bytes 1

    misframed : Bool
    misframed = ltb (length bytes) 2 || (ltb size 2 || ltb (length bytes) size)

    cut : Next
    cut = go_on (take_option kind (take size bytes) r) (drop size bytes)

    framed : Next
    framed = if misframed then answer none else cut

    padded : Next
    padded = if kind == 1 then go r rest else framed

parse_from_enough :
    (fuel more : ℕ) (r : TcpOptions) (bytes : List ℕ)
    → length bytes < fuel
    → parse_from (fuel + more) r bytes ≡ parse_from fuel r bytes
unfolding parse_from
parse_from_enough zero more r bytes enough = absurd (omega (arith, enough))
parse_from_enough (suc fuel) more r bytes enough =
    let e : suc fuel + more ≡ suc (fuel + more) = omega arith in
    ap (λ n. parse_from n r bytes) e
    ∙ next (next_option r bytes) (next_option-Shrinks r bytes) (parse_from_enough fuel more)
  where
    next :
        (n : Next)
        → Shrinks bytes n
        → ((r' : TcpOptions) (rest : List ℕ)
            → length rest < fuel
            → parse_from (fuel + more) r' rest ≡ parse_from fuel r' rest)
        → (elim n [ answer o ↦ o | go r' rest ↦ parse_from (fuel + more) r' rest ])
          ≡ (elim n [ answer o ↦ o | go r' rest ↦ parse_from fuel r' rest ])
    next (answer o) less later = refl
    next (go r' rest) less later = later r' rest (omega (arith, less, enough))

pub parse_tcp_options_enough :
    (more : ℕ) (bytes : List ℕ)
    → parse_from (length bytes + 1 + more) no_options bytes ≡ parse_tcp_options bytes
unfolding parse_tcp_options
parse_tcp_options_enough more bytes =
    parse_from_enough (length bytes + 1) more no_options bytes (omega arith)
