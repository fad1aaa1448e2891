-- ===== src/Encoders/Filter/Steps.antt =====
-- How the reported direction follows the decoded steps.
use mathlib.Core.Path.{subst, ap₂}
use open_deck.Prelude.{
  ℕ, ◌+◌, ◌≡◌, refl, Bool, true, false, not, ◌&&◌, List, [], ◌∷◌, some, none, Option, ltb, sym,
  ◌==◌, if◌then◌else◌, arith,
}
use open_deck.Encoders.Filter.{Position, stopped, ccw, cw, same, Filter, debounce}

-- The positions reported for a series of steps, each with the time since the step before in
-- milliseconds where there was one.
pub reports : Filter → List (Position × Option ℕ) → List Position
reports f [] = []
reports f ((step, elapsed) ∷ steps) =
    let (reported, f') = debounce f step elapsed in reported ∷ reports f' steps

-- What the steps so far tell: `unsettled p k` after a pause, with `k` steps in the position `p` last,
-- and none before any step; `settled d k` with a settled direction, and `k` steps against it last.
pub data Course : Type 0 where
  unsettled settled : Position → ℕ → Course

-- a pause of more than 50 milliseconds, or no step before
unfoldable pub paused : Option ℕ → Bool
paused none = true
paused (some t) = ltb 50 t

-- What should be reported for a step, and the course after it.
unfoldable pub next : Course → Position → Bool → Position × Course
next c step true = (step, unsettled step 1)
next (unsettled p k) step false =
    if not (same step p)
    then (step, unsettled step 1)
    else if k == 3
    then (step, settled step 0)
    else (step, unsettled step (k + 1))
next (settled d k) step false =
    if same step d
    then (d, settled d 0)
    else if k == 3
    then (step, settled step 0)
    else (d, settled d (k + 1))

unfoldable pub expected : Course → List (Position × Option ℕ) → List Position
expected c [] = []
expected c ((step, elapsed) ∷ steps) =
    let (reported, c') = next c step (paused elapsed) in reported ∷ expected c' steps

abbrev moves : List (Position × Option ℕ) → Bool
moves [] = true
moves ((step, elapsed) ∷ steps) = not (same step stopped) && moves steps

-- what the filter keeps on a course; a new filter is on `unsettled stopped 0`
abbrev is_settled : Filter → Position → ℕ → Bool
is_settled f d k =
    not (same d stopped)
    && same f.debounce_direction d
    && ltb f.debounce_counter 4
    && ltb k 4
    && (if k == 0
        then same f.last_direction d
        else f.debounce_counter == k
          && not (same f.last_direction d)
          && not (same f.last_direction stopped))

abbrev is_unsettled : Filter → Position → ℕ → Bool
is_unsettled f p k =
    same f.debounce_direction stopped
    && f.debounce_counter == k
    && same f.last_direction p
    && ltb k 4
    && (if k == 0 then same p stopped else not (same p stopped))

abbrev pub is_on : Filter → Course → Bool
is_on f (unsettled p k) = is_unsettled f p k
is_on f (settled d k) = is_settled f d k

after_pause :
    (f : Filter) (step : Position)
    → same step stopped ≡ false
    → let (r, f') = debounce f step none in (r ≡ step) × (is_unsettled f' step 1 ≡ true)
unfolding debounce
after_pause f stopped p = absurd (ground arith)
after_pause f ccw p = ground arith
after_pause f cw p = ground arith

brisk_unsettled :
    (f : Filter) (p : Position) (k : ℕ) (step : Position)
    → is_unsettled f p k ≡ true
    → same step stopped ≡ false
    → let (r, f') = debounce f step (some 50) in
      let (r', c) = next (unsettled p k) step false in (r ≡ r') × (is_on f' c ≡ true)
unfolding debounce next
brisk_unsettled f p k stopped s h = absurd (ground arith)
brisk_unsettled f stopped k ccw s h = ground arith
brisk_unsettled f stopped k cw s h = ground arith
brisk_unsettled f ccw k ccw s h = ground arith
brisk_unsettled f ccw k cw s h = ground arith
brisk_unsettled f cw k ccw s h = ground arith
brisk_unsettled f cw k cw s h = ground arith

brisk_settled :
    (f : Filter) (d : Position) (k : ℕ) (step : Position)
    → is_settled f d k ≡ true
    → same step stopped ≡ false
    → let (r, f') = debounce f step (some 50) in
      let (r', c) = next (settled d k) step false in (r ≡ r') × (is_on f' c ≡ true)
unfolding debounce next
brisk_settled f d k stopped s h = absurd (ground arith)
brisk_settled f stopped k step s h = absurd (ground arith)
brisk_settled f ccw k ccw s h = ground arith
brisk_settled f ccw k cw s h = ground arith
brisk_settled f cw k ccw s h = ground arith
brisk_settled f cw k cw s h = ground arith

debounce-paused :
    (f : Filter) (step : Position) (elapsed : Option ℕ)
    → paused elapsed ≡ true
    → debounce f step elapsed ≡ debounce f step none
unfolding debounce paused
debounce-paused f step none h = refl
debounce-paused f step (some t) h = rw (debounce, h)

debounce-brisk :
    (f : Filter) (step : Position) (elapsed : Option ℕ)
    → paused elapsed ≡ false
    → debounce f step elapsed ≡ debounce f step (some 50)
unfolding debounce paused
debounce-brisk f step none h = absurd (cc h)
debounce-brisk f step (some t) h = rw (debounce, h)

-- The filter and the course of a series.
Follows : Position × Filter → Position × Course → Type 0
Follows (r, f) (r', c) = (r ≡ r') × (is_on f c ≡ true)

step-Follows :
    (f : Filter) (c : Course) (step : Position) (elapsed : Option ℕ) (pause : Bool)
    → paused elapsed ≡ pause
    → is_on f c ≡ true
    → same step stopped ≡ false
    → Follows (debounce f step elapsed) (next c step pause)
unfolding Follows next
step-Follows f c step elapsed true e on h =
    subst (λ r. Follows r (step, unsettled step 1)) (sym (debounce-paused f step elapsed e))
      (after_pause f step h)
step-Follows f (unsettled p k) step elapsed false e on h =
    subst (λ r. Follows r (next (unsettled p k) step false)) (sym (debounce-brisk f step elapsed e))
      (brisk_unsettled f p k step on h)
step-Follows f (settled d k) step elapsed false e on h =
    subst (λ r. Follows r (next (settled d k) step false)) (sym (debounce-brisk f step elapsed e))
      (brisk_settled f d k step on h)

-- For a series of steps in a direction, each with the time since the step before where there was
-- one, a filter that is on a course reports what `expected` says. After a pause of more than 50 milliseconds, and before any step, the
-- steps are reported as they come, until four in a row settle a direction. From then on that
-- direction is reported, until the fourth step in a row against it settles the other one, or a pause
-- unsettles it.
pub reports-expected :
    (f : Filter) (c : Course) (steps : List (Position × Option ℕ))
    → is_on f c ≡ true
    → moves steps ≡ true
    → reports f steps ≡ expected c steps
unfolding reports expected Follows
reports-expected f c [] on m = refl
reports-expected f c ((step, elapsed) ∷ steps) on m =
    let (r, f') = debounce f step elapsed in
    let (_, c') = next c step (paused elapsed) in
    let (same_report, on') =
      step-Follows f c step elapsed (paused elapsed) refl on (ground arith) in
    ap₂ (λ a l. a ∷ l) same_report (reports-expected f' c' steps on' (ground arith))
