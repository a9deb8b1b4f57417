-- ===== src/Protocol/FrameParser/Frames.antt =====
-- The frame walk: its fuel, its bounds, and what it makes of a sequence of frames.
use mathlib.Core.List.{flatten}
use real_time_market_data_fe.Base.{
  ◌⊎◌, ℕ, zero, suc, ◌≤◌, ◌<◌, ◌≡◌, refl, ap, ◌∙◌, ltb, if◌then◌else◌, inl, List, [], ◌∷◌, ◌++◌,
  map, length, drop, take, All, arith, length-drop, length-append, append_assoc, take-append-drop,
  drop-append_length,
}
use real_time_market_data_fe.Protocol.Wire.{get_le}
use real_time_market_data_fe.Protocol.Messages.{header_size}
use real_time_market_data_fe.Protocol.Encoder.{decode_header}
use real_time_market_data_fe.Protocol.FrameParser.{MessageView, walk, parse_raw}

-- More fuel than the buffer has bytes changes nothing: the loop ends by one of its tests.
pub walk_fuel :
    (f g : ℕ) (rest : List ℕ) → length rest ≤ f → length rest ≤ g → walk f rest ≡ walk g rest
unfolding walk
walk_fuel zero zero rest p q = refl
walk_fuel zero (suc g) rest p q = ground arith
walk_fuel (suc f) zero rest p q = ground arith
walk_fuel (suc f) (suc g) rest p q =
    let n = (decode_header rest).message_length in
    ground (arith, walk_fuel f g (drop n rest), length-drop n rest)

-- The bytes that a view shows.
abbrev pub view_bytes : MessageView → List ℕ
view_bytes v = take v.len v.bytes

-- A view holds at least a header and ends inside the buffer.
abbrev pub IsInside : MessageView → Type 0
IsInside v = (header_size ≤ v.len) × (v.len ≤ length v.bytes)

walk-IsInside : (f : ℕ) (rest : List ℕ) → All IsInside (walk f rest)
unfolding walk
walk-IsInside zero rest = tt
walk-IsInside (suc f) rest =
    ground (arith, walk-IsInside f (drop (decode_header rest).message_length rest))

-- What the walk leaves unread.
pub leftover : ℕ → List ℕ → List ℕ
leftover zero rest = rest
leftover (suc fuel) rest =
    let n = (decode_header rest).message_length in
    let more = leftover fuel (drop n rest) in
    if ltb (length rest) header_size
    then rest
    else (if ltb n header_size then rest else if ltb (length rest) n then rest else more)

walk-leftover :
    (f : ℕ) (rest : List ℕ) → flatten (map view_bytes (walk f rest)) ++ leftover f rest ≡ rest
unfolding walk leftover flatten
walk-leftover zero rest = refl
walk-leftover (suc f) rest =
    let n = (decode_header rest).message_length in
    ground (
      arith,
      walk-leftover f (drop n rest),
      take-append-drop n rest,
      append_assoc (take n rest) (flatten (map view_bytes (walk f (drop n rest))))
          (leftover f (drop n rest)),
    )

-- No further frame begins here: too few bytes for a header, or a length that is too small or does
-- not fit.
abbrev pub Stops : List ℕ → Type 0
Stops rest =
    let n = (decode_header rest).message_length in
    (length rest < header_size) ⊎ ((n < header_size) ⊎ (length rest < n))

leftover-Stops : (f : ℕ) (rest : List ℕ) → length rest ≤ f → Stops (leftover f rest)
unfolding leftover
leftover-Stops zero rest le = inl (omega arith)
leftover-Stops (suc f) rest le =
    let n = (decode_header rest).message_length in
    ground (arith, leftover-Stops f (drop n rest), length-drop n rest)

-- Every view lies inside the buffer and holds a header, the views stand one after the other from the
-- start of the buffer, and what is left over behind the last one begins no further frame.
pub parse_raw_lem :
    (bs : List ℕ)
    → let views = parse_raw bs in
      let rest = leftover (length bs) bs in
      All IsInside views × (flatten (map view_bytes views) ++ rest ≡ bs) × Stops rest
unfolding parse_raw
parse_raw_lem bs = (
  walk-IsInside (length bs) bs,
  walk-leftover (length bs) bs,
  leftover-Stops (length bs) bs (omega arith),
)

get_le-append : (w : ℕ) (xs ys : List ℕ) → w ≤ length xs → get_le w (xs ++ ys) ≡ get_le w xs
unfolding get_le
get_le-append zero xs ys h = refl
get_le-append (suc w) [] ys h = absurd (omega arith)
get_le-append (suc w) (x ∷ xs) ys h = omega (arith, get_le-append w xs ys (omega arith))

-- A whole frame: its header tells its length.
abbrev pub IsFrame : List ℕ → Type 0
IsFrame fr = (header_size ≤ length fr) × ((decode_header fr).message_length ≡ length fr)

-- The views of frames that stand one after the other, with `tail` behind them.
abbrev pub views_of : List (List ℕ) → List ℕ → List MessageView
views_of [] tail = []
views_of (fr ∷ frs) tail =
    record { bytes = fr ++ (flatten frs ++ tail); len = length fr } ∷ views_of frs tail

walk_step :
    (f : ℕ) (fr rest : List ℕ)
    → IsFrame fr
    → walk (suc f) (fr ++ rest) ≡ record { bytes = fr ++ rest; len = length fr } ∷ walk f rest
unfolding walk decode_header
walk_step f fr rest h =
    let told : (decode_header (fr ++ rest)).message_length ≡ length fr =
      get_le-append 2 fr rest (omega arith) ∙ h.1 in
    ground (arith, told, length-append fr rest, drop-append_length fr rest)

walk-frames :
    (f : ℕ) (frs : List (List ℕ)) (tail : List ℕ)
    → All IsFrame frs
    → length tail < header_size
    → length (flatten frs) ≤ f
    → walk f (flatten frs ++ tail) ≡ views_of frs tail
unfolding walk flatten
walk-frames zero [] tail h t le = refl
walk-frames (suc f) [] tail h t le = ground arith
walk-frames zero (fr ∷ frs) tail h t le =
    absurd (omega (arith, h.0.0, length-append fr (flatten frs)))
walk-frames (suc f) (fr ∷ frs) tail h t le =
    rw (append_assoc fr (flatten frs) tail, walk_step f fr (flatten frs ++ tail) h.0)
      (ap (◌∷◌ (record { bytes = fr ++ (flatten frs ++ tail); len = length fr }))
        (walk-frames f frs tail h.1 t (omega (arith, h.0.0, length-append fr (flatten frs)))))

-- A buffer of whole frames, with fewer bytes than a header behind them, parses to just these frames.
pub parse_raw-frames :
    (frs : List (List ℕ)) (tail : List ℕ)
    → All IsFrame frs
    → length tail < header_size
    → parse_raw (flatten frs ++ tail) ≡ views_of frs tail
unfolding parse_raw
parse_raw-frames frs tail h t =
    walk-frames (length (flatten frs ++ tail)) frs tail h t
      (omega (arith, length-append (flatten frs) tail))
