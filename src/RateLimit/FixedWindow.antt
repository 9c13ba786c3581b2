-- ===== src/RateLimit/FixedWindow.antt =====
-- `FixedWindow` of internal/ratelimit/algorithms.go. A call reads the clock twice: `created`, only
-- to make the counter of a key that has none, and `now`, under the counter's lock. `limit` is a Go
-- int and `window` a time.Duration. A count stays at most the limit, so it does not overflow.
pub mod Log
pub mod Spec
pub mod Refines
pub mod Burst
use apigateway_distributed_s.Base.{
  ℕ, ◌+◌, ◌-◌, ◌%◌, Bool, true, false, none, some, [], ◌∷◌, String, ltb, if◌then◌else◌, Dict,
  lookup, insert, delete,
}
use apigateway_distributed_s.Base.Int.{ℤ, pos, pos_part, ltb_ℤ, leb_ℤ}

pub record Counter : Type 0 where
  pub count : ℕ
  pub window : ℕ

pub record FixedWindow : Type 0 where
  pub counters : Dict Counter
  pub limit : ℤ
  pub window : ℤ

unfoldable pub new_fixed_window : ℤ → ℤ → FixedWindow
new_fixed_window limit window = record { counters = []; limit = limit; window = window }

-- Go's `t.Truncate(d)`: down to a multiple of `d` since the zero time, and `t` if `d` is not
-- positive.
unfoldable pub truncate : ℤ → ℕ → ℕ
truncate d t = if ltb_ℤ (pos 0) d then t - t % pos_part d else t

-- The counter of a key; a key without one gets a fresh one.
unfoldable pub counter_of : FixedWindow → String → ℕ → Counter
unfolding truncate
counter_of fw key created = elim (lookup key fw.counters) [
  | none ↦ record { count = 0; window = truncate fw.window created }
  | some c ↦ c
]

-- The counter is set back if its window has passed.
unfoldable pub roll : ℤ → ℕ → Counter → Counter
unfolding truncate
roll window now c =
    if ltb c.window (truncate window now)
    then record { count = 0; window = truncate window now }
    else c

-- What a call does under the lock of the key's counter.
unfoldable pub check : ℤ → ℤ → ℕ → Counter → Counter × Bool
unfolding roll
check limit window now counter =
    let c = roll window now counter in
    if leb_ℤ limit (pos c.count) then (c, false) else (record c { count = c.count + 1 }, true)

unfoldable pub allow : FixedWindow → String → ℕ → ℕ → FixedWindow × Bool
unfolding counter_of check
allow fw key created now =
    let (c, allowed) = check fw.limit fw.window now (counter_of fw key created) in
    (record fw { counters = insert key c fw.counters }, allowed)

unfoldable pub reset : FixedWindow → String → FixedWindow
reset fw key = record fw { counters = delete key fw.counters }
