-- ===== src/Net/Meaning.antt =====
-- What a list of TCP options means, apart from the order in which parse_tcp_options of
-- include/mikos/net/tcp.hpp reads it.
use mikos.Prelude.{
  ℕ, ◌+◌, ◌%◌, ◌≡◌, refl, ap, ◌∙◌, List, [], ◌∷◌, ◌++◌, Option, none, some, Bool, true, false, not,
  ◌&&◌, if◌then◌else◌, ◌==◌, leb, arith, length, min, fun_ext,
}
use mikos.Slots.{All}
use mikos.Net.{read8, read16}
use mikos.Net.Options.{
  TcpOptions, take_option, parse_tcp_options, Item, no_operation, option, IsItem, encode, apply_all,
  ends, parse_tcp_options-apply_all,
}

-- The content that an option of a kind may have. Kinds that are not named here may have any.
abbrev pub is_well_formed : ℕ → List ℕ → Bool
is_well_formed kind content =
    if kind == 2
    then length content == 2 && not (read16 content 0 == 0)
    else if kind == 3
    then length content == 1
    else if kind == 4
    then length content == 0
    else if kind == 5
    then leb 8 (length content) && length content % 8 == 0
    else if kind == 8
    then length content == 8
    else true

unfoldable pub all_well_formed : List Item → Bool
all_well_formed [] = true
all_well_formed (no_operation ∷ items) = all_well_formed items
all_well_formed (option kind content ∷ items) = is_well_formed kind content && all_well_formed items

-- The contents of the options of one kind.
unfoldable pub of_kind : ℕ → List Item → List (List ℕ)
of_kind wanted [] = []
of_kind wanted (no_operation ∷ items) = of_kind wanted items
of_kind wanted (option kind content ∷ items) =
    let others = of_kind wanted items in if kind == wanted then content ∷ others else others

abbrev pub is_nil : List (List ℕ) → Bool
is_nil [] = true
is_nil (c ∷ cs) = false

abbrev pub at_most_one : List (List ℕ) → Bool
at_most_one [] = true
at_most_one (c ∷ cs) = is_nil cs

abbrev pub first : List (List ℕ) → Option (List ℕ)
first [] = none
first (c ∷ cs) = some c

-- The segment size of a content, and the scale of one, which is at most 14.
abbrev pub segment_size : Option (List ℕ) → Option ℕ
segment_size none = none
segment_size (some content) = some (read16 content 0)

abbrev pub scale : Option (List ℕ) → Option ℕ
scale none = none
scale (some content) = some (min (read8 content 0) 14)

unfoldable pub meaning : List Item → Option TcpOptions
meaning items =
    if all_well_formed items && (at_most_one (of_kind 2 items) && at_most_one (of_kind 3 items))
    then some (record {
      maximum_segment_size = segment_size (first (of_kind 2 items));
      window_scale = scale (first (of_kind 3 items));
    })
    else none

-- With a value that was read before, no other is left to read.
abbrev room : Option ℕ → List (List ℕ) → Bool
room none cs = at_most_one cs
room (some x) cs = is_nil cs

abbrev either : Option ℕ → Option ℕ → Option ℕ
either none later = later
either (some x) later = some x

abbrev result : Bool → Option ℕ → List (List ℕ) → Option ℕ → List (List ℕ) → Option TcpOptions
result sound m ms w ws =
    if sound && (room m ms && room w ws)
    then some (record {
      maximum_segment_size = either m (segment_size (first ms));
      window_scale = either w (scale (first ws));
    })
    else none

-- One option after the size `m` and the scale `w`, by what is known of its content and its kind.
abbrev taken : Bool → Bool → Bool → List ℕ → Option ℕ → Option ℕ → Option TcpOptions
taken false sizes scales c m w = none
taken true true scales c none w =
    some (record { maximum_segment_size = some (read16 c 0); window_scale = w })
taken true true scales c (some x) w = none
taken true false true c m none =
    some (record { maximum_segment_size = m; window_scale = some (min (read8 c 0) 14) })
taken true false true c m (some x) = none
taken true false false c m w = some (record { maximum_segment_size = m; window_scale = w })

abbrev accepted : ℕ → List ℕ → Option ℕ → Option ℕ → Option TcpOptions
accepted kind c m w = taken (is_well_formed kind c) (kind == 2) (kind == 3) c m w

take_option-accepted :
    (kind : ℕ) (c : List ℕ) (m w : Option ℕ)
    → take_option kind
        (kind ∷ (length c + 2) ∷ c)
        (record { maximum_segment_size = m; window_scale = w })
      ≡ accepted kind c m w
unfolding take_option read16 read8
take_option-accepted kind c m w = ground arith

abbrev follow : Option TcpOptions → (TcpOptions → Option TcpOptions) → Option TcpOptions
follow none later = none
follow (some r) later = later r

-- One option and those after it, where `sound`, `ms` and `ws` tell about those.
taken-result :
    (well sizes scales : Bool) (c : List ℕ) (m w : Option ℕ) (sound : Bool) (ms ws : List (List ℕ))
    → (sizes && scales) ≡ false
    → follow
        (taken well sizes scales c m w)
        (λ r. result sound r.maximum_segment_size ms r.window_scale ws)
      ≡ result (well && sound) m (if sizes then c ∷ ms else ms) w (if scales then c ∷ ws else ws)
taken-result false sizes scales c m w sound ms ws e = refl
taken-result true true true c m w sound ms ws e = cc
taken-result true true false c none w sound ms ws e = refl
taken-result true true false c (some x) w false ms ws e = refl
taken-result true true false c (some x) w true ms ws e = refl
taken-result true false true c m none sound ms ws e = refl
taken-result true false true c m (some x) false ms ws e = refl
taken-result true false true c none (some x) true ms ws e = ground arith
taken-result true false true c (some y) (some x) true ms ws e = ground arith
taken-result true false false c m w sound ms ws e = refl

follow-elim :
    (o : Option TcpOptions) (items : List Item)
    → (elim o [ none ↦ none | some r ↦ apply_all r items ]) ≡ follow o (λ r. apply_all r items)
follow-elim none items = refl
follow-elim (some r) items = refl

apply_all-result :
    (m w : Option ℕ) (items : List Item)
    → apply_all (record { maximum_segment_size = m; window_scale = w }) items
      ≡ result (all_well_formed items) m (of_kind 2 items) w (of_kind 3 items)
unfolding apply_all all_well_formed of_kind
apply_all-result none none [] = refl
apply_all-result none (some y) [] = refl
apply_all-result (some x) none [] = refl
apply_all-result (some x) (some y) [] = refl
apply_all-result m w (no_operation ∷ items) = apply_all-result m w items
apply_all-result m w (option kind c ∷ items) =
    follow-elim
      (take_option kind (kind ∷ (length c + 2) ∷ c)
        (record { maximum_segment_size = m; window_scale = w }))
      items
    ∙ ap (λ o. follow o (λ r. apply_all r items)) (take_option-accepted kind c m w)
    ∙ ap (follow (accepted kind c m w))
        (fun_ext (λ r. apply_all-result r.maximum_segment_size r.window_scale items))
    ∙ taken-result (is_well_formed kind c) (kind == 2) (kind == 3) c m w (all_well_formed items)
        (of_kind 2 items) (of_kind 3 items) (ground arith)

-- Options that are encoded one after another, each of a kind from 2 on and at most 255 bytes, or the
-- single byte 1, and then nothing or the byte 0 and anything, are refused if one of them has a content
-- that its kind may not have (kind 2: two bytes, not both 0; kind 3: one; kind 4: none; kind 5: a
-- multiple of 8, at least 8; kind 8: eight) or if two are of kind 2 or two of kind 3. Otherwise the
-- segment size is that of the option of kind 2, the scale that of the option of kind 3 or 14 if that is
-- less, and either is absent where no option names it.
pub parse_tcp_options-encode :
    (items : List Item) (after : List ℕ)
    → All IsItem items
    → ends after ≡ true
    → parse_tcp_options (encode items ++ after) ≡ meaning items
unfolding meaning
parse_tcp_options-encode items after all e =
    parse_tcp_options-apply_all items after all e ∙ apply_all-result none none items
