-- ===== src/Status/Decode.antt =====
-- The frame 5FC8, written by its layout and read by its handler
-- (src/traffic_signal_status_updating.c).
use vips_adaptive_traffi.Common.{
  ℕ, zero, suc, ◌+◌, ◌*◌, ◌/◌, ◌%◌, ◌≤◌, ◌≡◌, refl, sym, ap, ap₂, ◌∙◌, List, [], ◌∷◌, ◌++◌, map,
  Bytes, length, length-append, get_or, take, arith,
}
use mathlib.Core.List.{append_assoc}
use vips_adaptive_traffi.Signal.{StaticPlan}
use vips_adaptive_traffi.Status.Update.{
  Status, byte_at, word_at, set_greens, set_compensated, compensated, clear_if_new_order,
  packet_5FC8,
}
use vips_adaptive_traffi.Status.Mismatch.{clear_if_new_order-status}

-- A number of 16 bits, the high byte first.
abbrev pub encode_word : ℕ → Bytes
encode_word n = n / 256 ∷ n % 256 ∷ []

abbrev pub encode_words : List ℕ → Bytes
encode_words [] = []
encode_words (n ∷ ns) = n / 256 ∷ n % 256 ∷ encode_words ns

-- The INFO bytes of the frame: the plan's number, a direction, the phase order, the number of
-- subphases, their greens, the cycle time and the offset.
abbrev pub frame_5FC8 : ℕ → ℕ → ℕ → List ℕ → ℕ → ℕ → Bytes → Bytes
frame_5FC8 plan_id direct order greens cycle_time offset rest =
    0x5F
    ∷ 0xC8
    ∷ plan_id
    ∷ direct
    ∷ order
    ∷ length greens
    ∷ (encode_words greens ++ (encode_word cycle_time ++ (encode_word offset ++ rest)))

-- Reading behind a prefix.
pub get_or-append : (xs ys : Bytes) (j : ℕ) → get_or (xs ++ ys) (length xs + j) 0 ≡ get_or ys j 0
get_or-append [] ys j = let same : 0 + j ≡ j = omega arith in ap (λ i. get_or ys i 0) same
get_or-append (x ∷ xs) ys j =
    let same : suc (length xs) + j ≡ suc (length xs + j) = omega arith in
    ap (λ i. get_or (x ∷ (xs ++ ys)) i 0) same ∙ get_or-append xs ys j

word_at-encode : (xs ys : Bytes) (n : ℕ) → word_at (xs ++ (n / 256 ∷ n % 256 ∷ ys)) (length xs) ≡ n
word_at-encode xs ys n =
    let here : length xs ≡ length xs + 0 = omega arith in
    let high : byte_at bytes (length xs) ≡ n / 256 =
      ap (byte_at bytes) here ∙ get_or-append xs (n / 256 ∷ n % 256 ∷ ys) 0 in
    let low : byte_at bytes (length xs + 1) ≡ n % 256 =
      get_or-append xs (n / 256 ∷ n % 256 ∷ ys) 1 in
    omega (arith, high, low)
  where
    bytes : Bytes
    bytes = xs ++ (n / 256 ∷ n % 256 ∷ ys)

length-encode_words : (ns : List ℕ) → length (encode_words ns) ≡ length ns * 2
length-encode_words [] = refl
length-encode_words (n ∷ ns) = omega (arith, length-encode_words ns)

-- The handler's loop gives each subphase the green that was written for it.
greens-set_greens :
    (gs : List ℕ) (xs ys : Bytes) (ps : List StaticPlan)
    → length gs ≤ length ps
    → take
        (length gs)
        (map (λ p. p.green) (set_greens (length gs) (length xs) (xs ++ (encode_words gs ++ ys)) ps))
      ≡ gs
unfolding set_greens
greens-set_greens [] xs ys ps h = refl
greens-set_greens (g ∷ gs) xs ys [] h = absurd (omega arith)
greens-set_greens (g ∷ gs) xs ys (p ∷ ps) h =
    ap₂ (λ x zs. x ∷ zs) (word_at-encode xs (encode_words gs ++ ys) g)
      (ap₂ (λ i info. take (length gs) (map (λ q. q.green) (set_greens (length gs) i info ps)))
          (omega (arith, length-append xs word))
          (sym (append_assoc xs word (encode_words gs ++ ys)))
        ∙ greens-set_greens gs (xs ++ word) ys ps (omega (arith, h)))
  where
    word : Bytes
    word = encode_word g

greens-set_compensated :
    (n : ℕ) (ps : List StaticPlan)
    → map (λ p. p.green) (set_compensated n ps) ≡ map (λ p. p.green) ps
unfolding set_compensated compensated
greens-set_compensated zero ps = refl
greens-set_compensated (suc n) [] = refl
greens-set_compensated (suc n) (p ∷ ps) = ap (λ gs. p.green ∷ gs) (greens-set_compensated n ps)

-- A frame 5FC8 is taken in as it was meant: the status holds its plan, phase order, cycle time and
-- offset, and the subphases have the greens that it carries, for as many greens as the array has
-- plans at most; what follows in the buffer does not matter.
pub packet_5FC8-frame_5FC8 :
    (plan_id direct order : ℕ) (greens : List ℕ) (cycle_time offset : ℕ) (rest : Bytes) (s : Status)
    → length greens ≤ length s.core.signal_status.plan
    → let info = frame_5FC8 plan_id direct order greens cycle_time offset rest in
      let t = (packet_5FC8 info s).core.signal_status in
      (t.plan_id ≡ plan_id)
      × (t.phase_order ≡ order)
      × (t.sub_phase_count ≡ length greens)
      × (take (length greens) (map (λ p. p.green) t.plan) ≡ greens)
      × (t.cycle_time ≡ cycle_time)
      × (t.offset ≡ offset)
unfolding packet_5FC8
packet_5FC8-frame_5FC8 plan_id direct order greens cycle_time offset rest s fits =
    (refl, refl, refl, plans, cycle, off)
  where
    n : ℕ
    n = length greens

    info : Bytes
    info = frame_5FC8 plan_id direct order greens cycle_time offset rest

    head : Bytes
    head = 0x5F ∷ 0xC8 ∷ plan_id ∷ direct ∷ order ∷ n ∷ []

    front : Bytes
    front = head ++ encode_words greens

    kept : (clear_if_new_order order s).core.signal_status ≡ s.core.signal_status
    kept = clear_if_new_order-status order s

    plans :
        take n (
          map
            (λ p. p.green)
            (set_compensated n
              (set_greens n 6 info (clear_if_new_order order s).core.signal_status.plan)))
        ≡ greens
    plans =
        ap (take n) (greens-set_compensated n _)
        ∙ ap (λ t. take n (map (λ p. p.green) (set_greens n 6 info t.plan))) kept
        ∙ greens-set_greens greens head (encode_word cycle_time ++ (encode_word offset ++ rest))
            s.core.signal_status.plan fits

    cycle : word_at info (6 + n * 2) ≡ cycle_time
    cycle =
        let at : 6 + n * 2 ≡ length front = omega (arith, length-encode_words greens) in
        ap (word_at info) at ∙ word_at-encode front (encode_word offset ++ rest) cycle_time

    off : word_at info (8 + n * 2) ≡ offset
    off =
        let at : 8 + n * 2 ≡ length (front ++ encode_word cycle_time) =
          omega (arith, length-encode_words greens, length-append front (encode_word cycle_time)) in
        ap (word_at info) at
        ∙ ap (λ bs. word_at bs (length (front ++ encode_word cycle_time)))
            (sym (append_assoc front (encode_word cycle_time) (encode_word offset ++ rest)))
        ∙ word_at-encode (front ++ encode_word cycle_time) rest offset
