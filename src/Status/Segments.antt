-- ===== src/Status/Segments.antt =====
-- The segments of the day: taken in by packet_5FC6 (src/traffic_signal_status_updating.c), and the
-- one that get_nearly_segment (src/traffic_compensation.c) finds in them.
use vips_adaptive_traffi.Common.{
  ℕ, suc, ◌+◌, ◌*◌, ◌≤◌, ◌<◌, ◌≡◌, refl, sym, ap, ap₂, ◌∙◌, List, [], ◌∷◌, ◌++◌, map, Bytes, All,
  length, length-append, take, leb, if◌then◌else◌, arith,
}
use mathlib.Core.List.{append_assoc}
use vips_adaptive_traffi.Compensation.Start.{AllDayPlan, Day, segment_loop, get_nearly_segment}
use vips_adaptive_traffi.Status.Update.{byte_at}
use vips_adaptive_traffi.Status.Decode.{get_or-append}
use vips_adaptive_traffi.Status.Clock.{Segment, Clock, set_segments, packet_5FC6}

abbrev pub encode_segments : List Segment → Bytes
encode_segments [] = []
encode_segments (s ∷ ss) = s.start.hour ∷ s.start.minute ∷ s.plan_id ∷ encode_segments ss

-- The INFO bytes of the frame.
abbrev pub frame_5FC6 : ℕ → List Segment → Bytes → Bytes
frame_5FC6 type segments rest =
    0x5F ∷ 0xC6 ∷ type ∷ length segments ∷ (encode_segments segments ++ rest)

-- The segments that the status counts.
abbrev pub segments_of : Clock → List Segment
segments_of c = take c.segment_count c.allday_plan

-- The minute of the day.
abbrev pub minute_of : AllDayPlan → ℕ
minute_of p = p.hour * 60 + p.minute

-- The segments start in their order.
abbrev pub InOrder : List AllDayPlan → Type 0
InOrder [] = Unit
InOrder (p ∷ ps) = All (λ q. minute_of p ≤ minute_of q) ps × InOrder ps

-- Of all segments, the last one that has started by a minute, and `best` without one.
abbrev pub last_started : ℕ → AllDayPlan → List AllDayPlan → AllDayPlan
last_started now best [] = best
last_started now best (p ∷ ps) =
    let from_here = last_started now p ps in
    let without = last_started now best ps in if leb (minute_of p) now then from_here else without

none_started :
    (now : ℕ) (p best : AllDayPlan) (ps : List AllDayPlan)
    → now < minute_of p
    → All (λ q. minute_of p ≤ minute_of q) ps
    → last_started now best ps ≡ best
none_started now p best [] late later = refl
none_started now p best (q ∷ qs) late later =
    let rest = none_started now p best qs late later.1 in
    let after = later.0 in ground (arith, rest, after)

segment_loop-last_started :
    (now : ℕ) (best : AllDayPlan) (ps : List AllDayPlan)
    → InOrder ps
    → segment_loop now best ps ≡ last_started now best ps
unfolding segment_loop
segment_loop-last_started now best [] sorted = refl
segment_loop-last_started now best (p ∷ ps) sorted =
    let rest = segment_loop-last_started now p ps sorted.1 in
    let early = λ (late : now < minute_of p). none_started now p best ps late sorted.0 in
    ground (arith, rest, early)

set_segments-encode :
    (segs : List Segment) (xs rest : Bytes) (ss : List Segment)
    → length segs ≤ length ss
    → take
        (length segs)
        (set_segments (length segs) (length xs) (xs ++ (encode_segments segs ++ rest)) ss)
      ≡ segs
unfolding set_segments
set_segments-encode [] xs rest ss h = refl
set_segments-encode (g ∷ gs) xs rest [] h = absurd (omega arith)
set_segments-encode (g ∷ gs) xs rest (s ∷ ss) h =
    let here : length xs ≡ length xs + 0 = omega arith in
    let hour = ap (byte_at bytes) here ∙ get_or-append xs ys 0 in
    let minute = get_or-append xs ys 1 in
    let plan = get_or-append xs ys 2 in
    let behind =
      ap₂ (λ i info. take (length gs) (set_segments (length gs) i info ss))
        (omega (arith, length-append xs one))
        (sym (append_assoc xs one (encode_segments gs ++ rest)))
      ∙ set_segments-encode gs (xs ++ one) rest ss (omega (arith, h)) in
    λ i. record { start = record { hour = hour i; minute = minute i }; plan_id = plan i } ∷ behind i
  where
    one : Bytes
    one = g.start.hour ∷ g.start.minute ∷ g.plan_id ∷ []

    ys : Bytes
    ys = one ++ (encode_segments gs ++ rest)

    bytes : Bytes
    bytes = xs ++ ys

-- After a frame 5FC6, with segments in their order for which the array has room, the status has the
-- type, the number of segments and the segments that the frame carries, and the search for the
-- segment of a minute finds the last one that has started by then, or the first one before it starts.
pub packet_5FC6-nearly_segment :
    (type : ℕ) (first : Segment) (segs : List Segment) (rest : Bytes) (c : Clock) (d : Day)
    → length (first ∷ segs) ≤ length c.allday_plan
    → InOrder (map (λ s. s.start) segs)
    → let after = packet_5FC6 (frame_5FC6 type (first ∷ segs) rest) c in
      (after.segment_type ≡ type)
      × (after.segment_count ≡ length (first ∷ segs))
      × (segments_of after ≡ first ∷ segs)
      × (get_nearly_segment d (map (λ s. s.start) (segments_of after))
          ≡ last_started (d.tm_hour * 60 + d.tm_min) first.start (map (λ s. s.start) segs))
unfolding packet_5FC6 get_nearly_segment
packet_5FC6-nearly_segment type first segs rest c d room sorted =
    let same =
      set_segments-encode (first ∷ segs) (0x5F ∷ 0xC6 ∷ type ∷ suc (length segs) ∷ []) rest
        c.allday_plan room in
    (
      refl,
      refl,
      same,
      ap (λ ss. get_nearly_segment d (map (λ s. s.start) ss)) same
          ∙ segment_loop-last_started (d.tm_hour * 60 + d.tm_min) first.start
              (map (λ s. s.start) segs) sorted,
    )
