-- ===== src/Cache/Lru/Calls.antt =====
-- The calls that a client makes of the LRU cache, each with the reading of the clock, and their
-- answers.
use apigateway_distributed_s.Base.{ℕ, Bool, Option, some, List, [], ◌∷◌, String}
use apigateway_distributed_s.Base.Int.{ℤ}
use apigateway_distributed_s.Cache.{Bytes}
use apigateway_distributed_s.Cache.Lru.{
  LruCache, ◌>>=◌, get, set, delete_key, exists_key, clear, get_ttl,
}

pub data Call : Type 0 where
  gets : ℕ → String → Call
  sets : ℕ → String → Bytes → ℤ → Call
  deletes : String → Call
  asks : ℕ → String → Call
  clears : Call
  times : ℕ → String → Call

pub data Answer : Type 0 where
  value : Option Bytes → Answer
  flag : Bool → Answer
  ttl : Option ℤ → Answer
  done : Answer

-- `none` is a panic.
unfoldable pub step : LruCache → Call → Option (LruCache × Answer)
step l (gets now key) = do (l', v) ← get l now key; some (l', value v)
step l (sets now key v t) = do l' ← set l now key v t; some (l', done)
step l (deletes key) = do l' ← delete_key l key; some (l', done)
step l (asks now key) = some (l, flag (exists_key l now key))
step l clears = some (clear l, done)
step l (times now key) = some (l, ttl (get_ttl l now key))

unfoldable pub run : LruCache → List Call → Option (LruCache × List Answer)
run l [] = some (l, [])
run l (c ∷ cs) = do (l', a) ← step l c; (l'', as_) ← run l' cs; some (l'', a ∷ as_)
