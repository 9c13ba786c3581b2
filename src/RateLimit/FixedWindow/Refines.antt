-- ===== src/RateLimit/FixedWindow/Refines.antt =====
-- The fixed-window limiter answers as its specification does, and keeps the promised rate.
use apigateway_distributed_s.Base.{
  ℕ, ◌≤◌, ◌<◌, ◌≡◌, refl, ap, inl, inr, Bool, true, false, none, some, List, [], ◌∷◌, ◌++◌, String,
  arith, count_if, str_eq, Dict, lookup, insert, delete, lookup-insert, lookup-delete, update,
  if◌then◌else◌, Bool-cases, eq_iff,
}
use apigateway_distributed_s.Base.Int.{ℤ, pos, pos_part}
use apigateway_distributed_s.RateLimit.Call.{Logs, no_logs, note}
use apigateway_distributed_s.RateLimit.FixedWindow.{
  FixedWindow, Counter, new_fixed_window, truncate, check, counter_of, allow, reset,
}
use apigateway_distributed_s.RateLimit.FixedWindow.Spec.{
  Visit, allows, resets, Monotone, run, run_windows, admissions, is_in, has_room,
}
use apigateway_distributed_s.RateLimit.FixedWindow.Log.{
  Tracks, Tracks-fresh, Tracks-later, check-Tracks,
}

module _ (limit : ℤ) (w : ℕ) (pos_w : 0 < w) where
  abbrev at : Dict Counter → FixedWindow
  at cs = record { counters = cs; limit = limit; window = pos w }

  -- From the moment `last` on, every key's counter tracks its log.
  abbrev Follows : ℕ → Dict Counter → Logs → Type 0
  Follows last cs logs =
      (j : String) (created now : ℕ)
      → last ≤ now
      → created ≤ now
      → Tracks limit w now (counter_of (at cs) j created) (logs j)

  counter_of-insert :
      (k j : String) (created : ℕ) (v : Counter) (cs : Dict Counter)
      → counter_of (at (insert k v cs)) j created
        ≡ (if str_eq k j then v else counter_of (at cs) j created)
  unfolding counter_of
  counter_of-insert k j created v cs = rw (lookup-insert k j v cs, counter_of) (ground arith)

  counter_of-delete :
      (k j : String) (created : ℕ) (cs : Dict Counter)
      → counter_of (at (delete k cs)) j created ≡ (
          if str_eq k j
          then record { count = 0; window = truncate (pos w) created }
          else counter_of (at cs) j created)
  unfolding counter_of
  counter_of-delete k j created cs = rw (lookup-delete k j cs, counter_of) (ground arith)

  allow_lem :
      (k : String) (created now : ℕ) (cs : Dict Counter)
      → let r = check limit (pos w) now (counter_of (at cs) k created) in
        allow (at cs) k created now ≡ (at (insert k r.0 cs), r.1)
  unfolding allow
  allow_lem k created now cs = refl

  reset_lem : (k : String) (cs : Dict Counter) → reset (at cs) k ≡ at (delete k cs)
  unfolding reset
  reset_lem k cs = refl

  noted :
      (logs : Logs) (k : String) (t : ℕ) (ok : Bool) (j : String)
      → note logs k t ok j
        ≡ (if str_eq k j then (if ok then logs k ++ t ∷ [] else logs k) else logs j)
  noted logs k t true j = refl
  noted logs k t false j = ground (arith, eq_iff k j)

  step :
      (last created now : ℕ) (k : String) (cs : Dict Counter) (logs : Logs)
      → last ≤ now
      → created ≤ now
      → Follows last cs logs
      → let ok = has_room limit w now (logs k) in
        let r = check limit (pos w) now (counter_of (at cs) k created) in
        (r.1 ≡ ok) × Follows now (insert k r.0 cs) (note logs k now ok)
  step last created now k cs logs h g f =
      let c =
        check-Tracks limit w now now (counter_of (at cs) k created) (logs k) pos_w (omega arith)
          (f k created now h g) in
      (
        c.0,
        λ j created' now' h' g'.
            rw (counter_of-insert k j created' _ cs, noted logs k now _ j)
              (elim (Bool-cases (str_eq k j)) [
                | inl same ↦ rw same (Tracks-later limit w now now' _ _ pos_w h' c.1)
                | inr other ↦ rw other (f j created' now' (omega arith) g')
              ]),
      )

  reset_step :
      (last : ℕ) (k : String) (cs : Dict Counter) (logs : Logs)
      → Follows last cs logs
      → Follows last (delete k cs) (update logs k [])
  reset_step last k cs logs f j created now h g =
      rw (counter_of-delete k j created cs) (elim (Bool-cases (str_eq k j)) [
        | inl same ↦ rw same (Tracks-fresh limit w created now pos_w g)
        | inr other ↦ rw other (f j created now h g)
      ])

  run_lem :
      (last : ℕ) (vs : List Visit) (cs : Dict Counter) (logs : Logs)
      → Monotone last vs
      → Follows last cs logs
      → run (at cs) vs ≡ run_windows limit w logs vs
  unfolding run run_windows
  run_lem last [] cs logs m f = refl
  run_lem last (allows k created now ∷ vs) cs logs m f =
      let (same, next) = step last created now k cs logs m.0 m.1 f in
      rw (allow_lem k created now cs, same)
        (ap (◌∷◌ (some (has_room limit w now (logs k)))) (run_lem now vs _ _ m.2 next))
  run_lem last (resets k ∷ vs) cs logs m f =
      rw (reset_lem k cs) (ap (◌∷◌ none) (run_lem last vs _ _ m (reset_step last k cs logs f)))

  admissions_bounded :
      (last : ℕ) (vs : List Visit) (cs : Dict Counter) (logs : Logs)
      → Monotone last vs
      → Follows last cs logs
      → (s : ℕ) (k : String) → ((s : ℕ) → count_if (is_in w s) (logs k) ≤ pos_part limit)
      → count_if (is_in w s) (admissions (at cs) logs vs k) ≤ pos_part limit
  unfolding admissions
  admissions_bounded last [] cs logs m f s k b = b s
  admissions_bounded last (allows j created now ∷ vs) cs logs m f s k b =
      let (same, next) = step last created now j cs logs m.0 m.1 f in
      rw (allow_lem j created now cs, same)
        (admissions_bounded now vs _ _ m.2 next s k (next k created now (omega arith) m.1).bounded)
  admissions_bounded last (resets j ∷ vs) cs logs m f s k b = rw (reset_lem j cs) (
      admissions_bounded last vs _ _ m (reset_step last j cs logs f) s k
        (reset_step last j cs logs f k last last (omega arith) (omega arith)).bounded)

  Follows-new : Follows 0 [] no_logs
  unfolding counter_of lookup
  Follows-new j created now h g = Tracks-fresh limit w created now pos_w g

-- For every limit, positive window length and history of calls with a clock that does not go back,
-- a fresh limiter answers as the specification does, which admits a request exactly when the key
-- has fewer admissions since its last reset in the aligned window of the moment than the limit.
pub run-run_windows :
    (limit : ℤ) (w : ℕ) (vs : List Visit)
    → 0 < w
    → Monotone 0 vs
    → run (new_fixed_window limit (pos w)) vs ≡ run_windows limit w no_logs vs
unfolding new_fixed_window
run-run_windows limit w vs h m = run_lem limit w h 0 vs [] no_logs m (Follows-new limit w h)

-- After any history of calls with a clock that does not go back, no aligned window holds more
-- admissions of a key since its last reset than the limit, or any if the limit is negative.
pub admissions-le-window_limit :
    (limit : ℤ) (w : ℕ) (vs : List Visit) (k : String) (s : ℕ)
    → 0 < w
    → Monotone 0 vs
    → count_if (is_in w s) (admissions (new_fixed_window limit (pos w)) no_logs vs k)
      ≤ pos_part limit
unfolding new_fixed_window
admissions-le-window_limit limit w vs k s h m =
    admissions_bounded limit w h 0 vs [] no_logs m (Follows-new limit w h) s k (λ s. omega arith)
