-- ===== src/Trace/Counters.antt =====
-- crates/apimock-server/src/trace.rs: the counters of the emitter over a run of events.
use apimock_rs.Prelude.{
  ℕ, zero, suc, ◌+◌, ◌%◌, ◌^◌, Bool, true, false, ◌≡◌, Option, some, List, [], ◌∷◌, get_elem?,
  arith, if◌then◌else◌, sym, refl, ◌∙◌,
}
use apimock_rs.Trace.{EventCounts, emit, emit_all, new_emitter}

abbrev failure : Option Bool → ℕ
failure (some true) = 1
failure _ = 0

-- The failures that the `i`-th event reports: those of the emitter before the run for the first, and
-- one or none for a later one, as the call just before it failed or not.
abbrev pub reported : ℕ → List Bool → ℕ → ℕ
reported d errs zero = d
reported d errs (suc i) = failure (get_elem? errs i)

reported-step :
    (d : ℕ) (err : Bool) (errs : List Bool) (i : ℕ)
    → reported (if err then 1 else 0) errs i ≡ reported d (err ∷ errs) (suc i)
reported-step d true errs zero = refl
reported-step d false errs zero = refl
reported-step d err errs (suc i) = refl

emit_all-at :
    (n d : ℕ) (errs : List Bool) (i : ℕ) (event : EventCounts)
    → get_elem? (emit_all (record { event_counter = n % 2 ^ 32; dropped_counter = d }) errs) i
      ≡ some event
    → (event.event_id ≡ (n + i) % 2 ^ 32) × (event.dropped_count ≡ reported d errs i)
unfolding emit_all emit
emit_all-at n d [] i event h = ground arith
emit_all-at n d (err ∷ errs) zero event h = ground arith
emit_all-at n d (err ∷ errs) (suc i) event h =
    let next : (n % 2 ^ 32 + 1) % 2 ^ 32 ≡ suc n % 2 ^ 32 = omega arith in
    let tail = emit_all-at (suc n) (if err then 1 else 0) errs i event (rw (sym next) h) in
    let shifted : (suc n + i) % 2 ^ 32 ≡ (n + suc i) % 2 ^ 32 = omega arith in
    (tail.0 ∙ shifted, tail.1 ∙ reported-step d err errs i)

-- In a run of calls from a new emitter, the `i`-th event has the number `i`, wrapped at 2 ^ 32, and
-- reports one dropped event if the call just before it failed and none otherwise, however many calls
-- before that one failed.
pub emit_all_lem :
    (errs : List Bool) (i : ℕ) (event : EventCounts)
    → get_elem? (emit_all new_emitter errs) i ≡ some event
    → (event.event_id ≡ i % 2 ^ 32) × (event.dropped_count ≡ reported 0 errs i)
emit_all_lem errs i event h =
    let run = emit_all-at 0 0 errs i event h in
    let start : (0 + i) % 2 ^ 32 ≡ i % 2 ^ 32 = omega arith in (run.0 ∙ start, run.1)
