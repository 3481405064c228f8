-- ===== src/Net/Options.antt =====
-- parse_tcp_options of include/mikos/net/tcp.hpp: options in frames of a kind, a length and data; and
-- the frames that a sender writes.
use mikos.Prelude.{
  ℕ, zero, suc, ◌+◌, ◌-◌, ◌%◌, ◌≤◌, ◌<◌, ◌≡◌, refl, ap, ap₂, ◌∙◌, List, [], ◌∷◌, ◌++◌, append_assoc,
  Option, none, some, Bool, true, false, not, ◌||◌, if◌then◌else◌, ◌==◌, ltb, arith, length,
  length-append, take, take-append, drop, drop-append, min,
}
use mikos.Slots.{All}
use mikos.Net.{read8, read16}

pub record TcpOptions : Type 0 where
  pub maximum_segment_size : Option ℕ
  pub window_scale : Option ℕ

-- `TcpOptions result;`
abbrev pub no_options : TcpOptions
no_options = record { maximum_segment_size = none; window_scale = none }

abbrev pub has_value : Option ℕ → Bool
has_value none = false
has_value (some x) = true

-- The switch over the kind of one option, which is given with its kind and length.
unfoldable pub take_option : ℕ → List ℕ → TcpOptions → Option TcpOptions
take_option kind option r =
    if kind == 2
    then (if not (length option == 4) || has_value r.maximum_segment_size
        then none
        else if read16 option 2 == 0
        then none
        else some (record r { maximum_segment_size = some (read16 option 2) }))
    else if kind == 3
    then (if not (length option == 3) || has_value r.window_scale
        then none
        else some (record r { window_scale = some (min (read8 option 2) 14) }))
    else if kind == 4
    then (if not (length option == 2) then none else some r)
    else if kind == 5
    then (if ltb (length option) 10 || not ((length option - 2) % 8 == 0) then none else some r)
    else if kind == 8
    then (if not (length option == 10) then none else some r)
    else some r

-- What a round of the loop does: it returns, or goes on with options and bytes.
pub data Next : Type 0 where
  answer : Option TcpOptions → Next
  go : TcpOptions → List ℕ → Next

abbrev pub go_on : Option TcpOptions → List ℕ → Next
go_on none rest = answer none
go_on (some r) rest = go r rest

unfoldable pub next_option : TcpOptions → List ℕ → Next
next_option r [] = answer (some r)
next_option r (kind ∷ rest) =
    let bytes = kind ∷ rest in
    let size = read8 bytes 1 in
    if kind == 0
    then answer (some r)
    else if kind == 1
    then go r rest
    else if ltb (length bytes) 2 || (ltb size 2 || ltb (length bytes) size)
    then answer none
    else go_on (take_option kind (take size bytes) r) (drop size bytes)

-- The loop, with fuel.
unfoldable pub parse_from : ℕ → TcpOptions → List ℕ → Option TcpOptions
parse_from zero r bytes = none
parse_from (suc fuel) r bytes = elim (next_option r bytes) [
  | answer o ↦ o
  | go r' rest ↦ parse_from fuel r' rest
]

-- With fuel for every byte, and for the end.
unfoldable pub parse_tcp_options : List ℕ → Option TcpOptions
parse_tcp_options bytes = parse_from (length bytes + 1) no_options bytes

-- An option as a sender means it.
pub data Item : Type 0 where
  no_operation : Item
  option : ℕ → List ℕ → Item

abbrev pub IsItem : Item → Type 0
IsItem no_operation = Unit
IsItem (option kind content) = (2 ≤ kind) × (length content ≤ 253)

unfoldable pub encode : List Item → List ℕ
encode [] = []
encode (no_operation ∷ items) = 1 ∷ encode items
encode (option kind content ∷ items) = kind ∷ (length content + 2) ∷ content ++ encode items

-- They are taken one after another.
unfoldable pub apply_all : TcpOptions → List Item → Option TcpOptions
apply_all r [] = some r
apply_all r (no_operation ∷ items) = apply_all r items
apply_all r (option kind content ∷ items) =
    elim (take_option kind (kind ∷ (length content + 2) ∷ content) r) [
      | none ↦ none
      | some r' ↦ apply_all r' items
    ]

-- The bytes after the options: none, or the end of the list and any padding.
abbrev pub ends : List ℕ → Bool
ends [] = true
ends (x ∷ xs) = x == 0

next_option-ends :
    (r : TcpOptions) (bytes : List ℕ) → ends bytes ≡ true → next_option r bytes ≡ answer (some r)
unfolding next_option
next_option-ends r [] e = refl
next_option-ends r (x ∷ xs) e = ground (arith, e)

take-size : (content after : List ℕ) → take (length content) (content ++ after) ≡ content
take-size content after = take-append content after

next_option-option :
    (r : TcpOptions) (kind : ℕ) (content after : List ℕ)
    → 2 ≤ kind
    → next_option r (kind ∷ (length content + 2) ∷ content ++ after)
      ≡ go_on (take_option kind (kind ∷ (length content + 2) ∷ content) r) after
unfolding next_option read8
next_option-option r kind content after other =
    let long = length-append content after in
    let bytes = kind ∷ (length content + 2) ∷ (content ++ after) in
    let same : length content + 2 ≡ suc (suc (length content)) = omega arith in
    let taken : take (length content + 2) bytes ≡ kind ∷ (length content + 2) ∷ content =
      ap (λ n. take n bytes) same
      ∙ ap (λ xs. kind ∷ (length content + 2) ∷ xs) (take-append content after) in
    let dropped : drop (length content + 2) bytes ≡ after =
      ap (λ n. drop n bytes) same ∙ drop-append content after in
    let framed : (ltb (length bytes) 2
          || (ltb (length content + 2) 2 || ltb (length bytes) (length content + 2)))
        ≡ false =
      ground (arith, long) in
    let not_end : (kind == 0) ≡ false = ground (arith, other) in
    let not_pad : (kind == 1) ≡ false = ground (arith, other) in
    ap (λ b. if b then answer (some r) else tested kind bytes (length content + 2)) not_end
    ∙ ap
        (λ b.
          if b
          then go r ((length content + 2) ∷ (content ++ after))
          else checked bytes (length content + 2))
        not_pad
    ∙ ap (λ b. if b then answer none else cut bytes (length content + 2)) framed
    ∙ ap₂ (λ frame rest. go_on (take_option kind frame r) rest) taken dropped
  where
    cut : List ℕ → ℕ → Next
    cut bytes size = go_on (take_option kind (take size bytes) r) (drop size bytes)

    checked : List ℕ → ℕ → Next
    checked bytes size =
        if ltb (length bytes) 2 || (ltb size 2 || ltb (length bytes) size)
        then answer none
        else cut bytes size

    tested : ℕ → List ℕ → ℕ → Next
    tested k bytes size =
        if k == 1 then go r ((length content + 2) ∷ (content ++ after)) else checked bytes size

abbrev onward : ℕ → Next → Option TcpOptions
onward fuel n = elim n [ answer o ↦ o | go r rest ↦ parse_from fuel r rest ]

skip : (r : TcpOptions) (bytes : List ℕ) → next_option r (1 ∷ bytes) ≡ go r bytes
unfolding next_option
skip r bytes = refl

parse_from-encode :
    (fuel : ℕ) (r : TcpOptions) (items : List Item) (after : List ℕ)
    → All IsItem items
    → ends after ≡ true
    → length (encode items) < fuel
    → parse_from fuel r (encode items ++ after) ≡ apply_all r items
unfolding parse_from encode apply_all
parse_from-encode zero r items after all e enough = absurd (omega (arith, enough))
parse_from-encode (suc fuel) r [] after all e enough = ap (onward fuel) (next_option-ends r after e)
parse_from-encode (suc fuel) r (no_operation ∷ items) after all e enough =
    ap (onward fuel) (skip r (encode items ++ after))
    ∙ parse_from-encode fuel r items after all.1 e (omega (arith, enough))
parse_from-encode (suc fuel) r (option kind content ∷ items) after all e enough =
    let frame = kind ∷ (length content + 2) ∷ content in
    ap (λ bytes. onward fuel (next_option r (kind ∷ (length content + 2) ∷ bytes)))
      (append_assoc content (encode items) after)
    ∙ ap (onward fuel) (next_option-option r kind content (encode items ++ after) all.0.0)
    ∙ rest (take_option kind frame r) (λ r'.
      parse_from-encode fuel r' items after all.1 e
        (omega (arith, enough, length-append content (encode items))))
  where
    rest :
        (o : Option TcpOptions)
        → ((r' : TcpOptions) → parse_from fuel r' (encode items ++ after) ≡ apply_all r' items)
        → onward fuel (go_on o (encode items ++ after))
          ≡ (elim o [ none ↦ none | some r' ↦ apply_all r' items ])
    rest none later = refl
    rest (some r') later = later r'

-- What is encoded is parsed as the options taken one after another.
pub parse_tcp_options-apply_all :
    (items : List Item) (after : List ℕ)
    → All IsItem items
    → ends after ≡ true
    → parse_tcp_options (encode items ++ after) ≡ apply_all no_options items
unfolding parse_tcp_options
parse_tcp_options-apply_all items after all e =
    parse_from-encode (length (encode items ++ after) + 1) no_options items after all e
      (omega (arith, length-append (encode items) after))
