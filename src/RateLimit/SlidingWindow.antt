-- ===== src/RateLimit/SlidingWindow.antt =====
-- `SlidingWindow` of internal/ratelimit/algorithms.go. A call reads the clock once, while it holds
-- the window's lock; the reading is an argument here. `limit` is a Go int and `window` a
-- time.Duration, which may be negative.
mod Log
pub mod Spec
pub mod Refines
use apigateway_distributed_s.Base.{
  ℕ, ◌+◌, Bool, true, false, Option, none, some, List, [], ◌∷◌, ◌++◌, String, length, if◌then◌else◌,
  Dict, lookup, insert, delete,
}
use apigateway_distributed_s.Base.Int.{ℤ, pos, ◌-ℤ◌, ltb_ℤ, leb_ℤ}

pub record Window : Type 0 where
  pub requests : List ℕ

pub record SlidingWindow : Type 0 where
  pub windows : Dict Window
  pub limit : ℤ
  pub window : ℤ

unfoldable pub new_sliding_window : ℤ → ℤ → SlidingWindow
new_sliding_window limit window = record { windows = []; limit = limit; window = window }

-- The loop over the requests before the cutoff, and the slice that drops them.
unfoldable pub drop_old : ℤ → List ℕ → List ℕ
drop_old cutoff [] = []
drop_old cutoff (r ∷ rs) =
    let rest = drop_old cutoff rs in if ltb_ℤ (pos r) cutoff then rest else r ∷ rs

-- What a call does under the lock of the key's window.
unfoldable pub check : ℤ → ℤ → ℕ → Window → Window × Bool
unfolding drop_old ◌-ℤ◌
check limit window now w =
    let cutoff = pos now -ℤ window in
    let requests = drop_old cutoff w.requests in
    if leb_ℤ limit (pos (length requests))
    then (record { requests = requests }, false)
    else (record { requests = requests ++ now ∷ [] }, true)

-- The window of a key; a key without one gets an empty one.
unfoldable pub window_of : SlidingWindow → String → Window
window_of sw key = elim (lookup key sw.windows) [ none ↦ record { requests = [] } | some w ↦ w ]

unfoldable pub allow : SlidingWindow → String → ℕ → SlidingWindow × Bool
unfolding check window_of
allow sw key now =
    let (w, allowed) = check sw.limit sw.window now (window_of sw key) in
    (record sw { windows = insert key w sw.windows }, allowed)

unfoldable pub reset : SlidingWindow → String → SlidingWindow
reset sw key = record sw { windows = delete key sw.windows }
