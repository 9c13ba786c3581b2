-- ===== src/RateLimit/SlidingWindow/Refines.antt =====
-- The sliding-window limiter answers as its specification does, and keeps the promised rate.
use apigateway_distributed_s.Base.{
  ℕ, ◌≤◌, ◌≡◌, refl, ap, inl, inr, Bool, true, false, none, some, List, [], ◌∷◌, ◌++◌, String,
  arith, count_if, str_eq, Dict, lookup, insert, delete, lookup-insert, lookup-delete, update,
  if◌then◌else◌, Bool-cases, eq_iff,
}
use apigateway_distributed_s.Base.Int.{ℤ, pos, pos_part}
use apigateway_distributed_s.RateLimit.Call.{Call, allows, resets, Monotone, Logs, no_logs, note}
use apigateway_distributed_s.RateLimit.SlidingWindow.{
  SlidingWindow, Window, new_sliding_window, check, window_of, allow, reset,
}
use apigateway_distributed_s.RateLimit.SlidingWindow.Spec.{
  run, run_spec, admissions, is_within, has_room,
}
use apigateway_distributed_s.RateLimit.SlidingWindow.Log.{
  Tracks, Tracks-later, Tracks-empty, check-Tracks,
}

module _ (limit : ℤ) (w : ℕ) where
  abbrev at : Dict Window → SlidingWindow
  at ws = record { windows = ws; limit = limit; window = pos w }

  -- Every key's window tracks its log.
  abbrev Follows : ℕ → Dict Window → Logs → Type 0
  Follows last ws logs = (j : String) → Tracks limit w last (window_of (at ws) j).requests (logs j)

  window_of-insert :
      (k j : String) (v : Window) (ws : Dict Window)
      → window_of (at (insert k v ws)) j ≡ (if str_eq k j then v else window_of (at ws) j)
  unfolding window_of
  window_of-insert k j v ws = rw (lookup-insert k j v ws, window_of) (ground arith)

  window_of-delete :
      (k j : String) (ws : Dict Window)
      → window_of (at (delete k ws)) j
        ≡ (if str_eq k j then record { requests = [] } else window_of (at ws) j)
  unfolding window_of
  window_of-delete k j ws = rw (lookup-delete k j ws, window_of) (ground arith)

  allow_lem :
      (k : String) (t : ℕ) (ws : Dict Window)
      → let r = check limit (pos w) t (window_of (at ws) k) in
        allow (at ws) k t ≡ (at (insert k r.0 ws), r.1)
  unfolding allow
  allow_lem k t ws = refl

  noted :
      (logs : Logs) (k : String) (t : ℕ) (ok : Bool) (j : String)
      → note logs k t ok j
        ≡ (if str_eq k j then (if ok then logs k ++ t ∷ [] else logs k) else logs j)
  noted logs k t true j = refl
  noted logs k t false j = ground (arith, eq_iff k j)

  step :
      (last t : ℕ) (k : String) (ws : Dict Window) (logs : Logs)
      → last ≤ t
      → Follows last ws logs
      → let ok = has_room limit w t (logs k) in
        let r = check limit (pos w) t (window_of (at ws) k) in
        (r.1 ≡ ok) × Follows t (insert k r.0 ws) (note logs k t ok)
  step last t k ws logs h f =
      let c = check-Tracks limit w last t (window_of (at ws) k) (logs k) h (f k) in
      (
        c.0,
        λ j.
            rw (window_of-insert k j _ ws, noted logs k t _ j)
              (elim (Bool-cases (str_eq k j)) [
                | inl same ↦ rw same (c.1)
                | inr other ↦ rw other (Tracks-later limit w last t _ _ h (f j))
              ]),
      )

  reset_step :
      (last : ℕ) (k : String) (ws : Dict Window) (logs : Logs)
      → Follows last ws logs
      → Follows last (delete k ws) (update logs k [])
  reset_step last k ws logs f j = rw (window_of-delete k j ws) (elim (Bool-cases (str_eq k j)) [
    | inl same ↦ rw same (Tracks-empty limit w last)
    | inr other ↦ rw other (f j)
  ])

  reset_lem : (k : String) (ws : Dict Window) → reset (at ws) k ≡ at (delete k ws)
  unfolding reset
  reset_lem k ws = refl

  run-eq-spec :
      (last : ℕ) (cs : List Call) (ws : Dict Window) (logs : Logs)
      → Monotone last cs
      → Follows last ws logs
      → run (at ws) cs ≡ run_spec limit w logs cs
  unfolding run run_spec
  run-eq-spec last [] ws logs m f = refl
  run-eq-spec last (allows k t ∷ cs) ws logs m f =
      let (same, next) = step last t k ws logs m.0 f in
      rw (allow_lem k t ws, same)
        (ap (◌∷◌ (some (has_room limit w t (logs k)))) (run-eq-spec t cs _ _ m.1 next))
  run-eq-spec last (resets k ∷ cs) ws logs m f =
      rw (reset_lem k ws) (ap (◌∷◌ none) (run-eq-spec last cs _ _ m (reset_step last k ws logs f)))

  admissions_bounded :
      (last : ℕ) (cs : List Call) (ws : Dict Window) (logs : Logs)
      → Monotone last cs
      → Follows last ws logs
      → (k : String) (a : ℕ)
      → count_if (is_within w a) (admissions (at ws) logs cs k) ≤ pos_part limit
  unfolding admissions
  admissions_bounded last [] ws logs m f k a = (f k).bounded a
  admissions_bounded last (allows j t ∷ cs) ws logs m f k a =
      let (same, next) = step last t j ws logs m.0 f in
      rw (allow_lem j t ws, same) (admissions_bounded t cs _ _ m.1 next k a)
  admissions_bounded last (resets j ∷ cs) ws logs m f k a =
      rw (reset_lem j ws) (admissions_bounded last cs _ _ m (reset_step last j ws logs f) k a)

  Follows-new : Follows 0 [] no_logs
  unfolding window_of lookup
  Follows-new j = Tracks-empty limit w 0

-- For every limit, window length and history of calls with a clock that does not go back, a fresh
-- limiter answers as the specification does, which admits a request exactly when the key has fewer
-- admissions since its last reset in the window that ends now than the limit says.
pub run-run_spec :
    (limit : ℤ) (w : ℕ) (cs : List Call)
    → Monotone 0 cs
    → run (new_sliding_window limit (pos w)) cs ≡ run_spec limit w no_logs cs
unfolding new_sliding_window
run-run_spec limit w cs m = run-eq-spec limit w 0 cs [] no_logs m (Follows-new limit w)

-- After any history of calls with a clock that does not go back, no closed interval of the window's
-- length holds more admissions of a key since its last reset than the limit, or any if the limit is
-- negative.
pub admissions-le-limit :
    (limit : ℤ) (w : ℕ) (cs : List Call) (k : String) (a : ℕ)
    → Monotone 0 cs
    → count_if (is_within w a) (admissions (new_sliding_window limit (pos w)) no_logs cs k)
      ≤ pos_part limit
unfolding new_sliding_window
admissions-le-limit limit w cs k a m =
    admissions_bounded limit w 0 cs [] no_logs m (Follows-new limit w) k a
