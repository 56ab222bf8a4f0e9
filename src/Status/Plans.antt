-- ===== src/Status/Plans.antt =====
-- What the loops of the handlers make of one subphase.
use vips_adaptive_traffi.Common.{
  ℕ, zero, suc, ◌+◌, ◌*◌, ◌<◌, ◌≡◌, refl, ap, ◌∙◌, List, [], ◌∷◌, Bytes, length, get_or, arith,
}
use vips_adaptive_traffi.Signal.{StaticPlan, zero_plan}
use vips_adaptive_traffi.Status.Update.{
  word_at, set_greens, compensated, set_compensated, limits_from, set_limits,
}

pub get_or-set_greens :
    (n j : ℕ) (info : Bytes) (ps : List StaticPlan) (k : ℕ)
    → k < n
    → k < length ps
    → get_or (set_greens n j info ps) k zero_plan
      ≡ record (get_or ps k zero_plan) { green = word_at info (j + k * 2) }
unfolding set_greens
get_or-set_greens zero j info ps k h l = absurd (omega arith)
get_or-set_greens (suc n) j info [] k h l = absurd (omega arith)
get_or-set_greens (suc n) j info (p ∷ ps) zero h l =
    let here : j ≡ j + 0 * 2 = omega arith in ap (λ i. record p { green = word_at info i }) here
get_or-set_greens (suc n) j info (p ∷ ps) (suc k) h l =
    let there : j + 2 + k * 2 ≡ j + suc k * 2 = omega arith in
    get_or-set_greens n (j + 2) info ps k (omega arith) (omega arith)
    ∙ ap (λ i. record (get_or ps k zero_plan) { green = word_at info i }) there

pub get_or-set_compensated :
    (n : ℕ) (ps : List StaticPlan) (k : ℕ)
    → k < n
    → k < length ps
    → get_or (set_compensated n ps) k zero_plan ≡ compensated (get_or ps k zero_plan)
unfolding set_compensated
get_or-set_compensated zero ps k h l = absurd (omega arith)
get_or-set_compensated (suc n) [] k h l = absurd (omega arith)
get_or-set_compensated (suc n) (p ∷ ps) zero h l = refl
get_or-set_compensated (suc n) (p ∷ ps) (suc k) h l =
    get_or-set_compensated n ps k (omega arith) (omega arith)

pub get_or-set_limits :
    (n j : ℕ) (info : Bytes) (ps : List StaticPlan) (k : ℕ)
    → k < n
    → k < length ps
    → get_or (set_limits n j info ps) k zero_plan
      ≡ limits_from info (j + k * 7) (get_or ps k zero_plan)
unfolding set_limits
get_or-set_limits zero j info ps k h l = absurd (omega arith)
get_or-set_limits (suc n) j info [] k h l = absurd (omega arith)
get_or-set_limits (suc n) j info (p ∷ ps) zero h l =
    let here : j ≡ j + 0 * 7 = omega arith in ap (λ i. limits_from info i p) here
get_or-set_limits (suc n) j info (p ∷ ps) (suc k) h l =
    let there : j + 7 + k * 7 ≡ j + suc k * 7 = omega arith in
    get_or-set_limits n (j + 7) info ps k (omega arith) (omega arith)
    ∙ ap (λ i. limits_from info i (get_or ps k zero_plan)) there

pub length-set_greens :
    (n j : ℕ) (info : Bytes) (ps : List StaticPlan) → length (set_greens n j info ps) ≡ length ps
unfolding set_greens
length-set_greens zero j info ps = refl
length-set_greens (suc n) j info [] = refl
length-set_greens (suc n) j info (p ∷ ps) = ap suc (length-set_greens n (j + 2) info ps)

pub length-set_limits :
    (n j : ℕ) (info : Bytes) (ps : List StaticPlan) → length (set_limits n j info ps) ≡ length ps
unfolding set_limits
length-set_limits zero j info ps = refl
length-set_limits (suc n) j info [] = refl
length-set_limits (suc n) j info (p ∷ ps) = ap suc (length-set_limits n (j + 7) info ps)
