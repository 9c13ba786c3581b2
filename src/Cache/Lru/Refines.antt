-- ===== src/Cache/Lru/Refines.antt =====
-- That the linked list and the map of the LRU cache do what its specification says.
use apigateway_distributed_s.Base.{ℕ, ◌≡◌, refl, subst, some, List, [], ◌∷◌, map, arith, lookup}
use apigateway_distributed_s.Base.Int.{ℤ}
use apigateway_distributed_s.Cache.Lru.{LruCache, new_lru_cache}
use apigateway_distributed_s.Cache.Lru.Rep.{Rep}
use apigateway_distributed_s.Cache.Lru.Calls.{
  Call, gets, sets, deletes, asks, clears, times, step, run,
}
use apigateway_distributed_s.Cache.Lru.Spec.{Entries, answer, answers, entries_after}
use apigateway_distributed_s.Cache.Lru.Steps.{
  Models, Yields, gets-Yields, deletes-Yields, asks-Yields, times-Yields, clears-Yields,
}
use apigateway_distributed_s.Cache.Lru.Sets.{sets-Yields}

pub new-Models : (capacity : ℤ) → Models capacity (new_lru_cache capacity) []
unfolding new_lru_cache lookup
new-Models capacity = record {
  addresses = [];
  rep = record {
    linked = (refl, refl);
    distinct = (refl, (refl, tt));
    below = (omega arith, (omega arith, tt));
    found = λ k. refl;
    differ = tt;
    unique = tt;
    count = refl;
  };
  entries = refl;
  capacity_same = refl;
}

pub step-Yields :
    (capacity : ℤ) (l : LruCache) (ps : List ℕ) (c : Call)
    → Rep l ps
    → l.capacity ≡ capacity
    → Yields capacity (step l c) (answer capacity (map l.memory.item ps) c)
step-Yields capacity l ps (gets now k) r same = gets-Yields capacity l same now k ps r
step-Yields capacity l ps (sets now k v t) r same = sets-Yields capacity l same now k v t ps r
step-Yields capacity l ps (deletes k) r same = deletes-Yields capacity l same k ps r
step-Yields capacity l ps (asks now k) r same = asks-Yields capacity l same now k ps r
step-Yields capacity l ps clears r same = clears-Yields capacity l same ps r
step-Yields capacity l ps (times now k) r same = times-Yields capacity l same now k ps r

-- Any sequence of calls ends without a panic, with the answers of the specification.
pub run-Models :
    (capacity : ℤ) (l : LruCache) (es : Entries) (cs : List Call)
    → Models capacity l es
    → (l' : LruCache) × (run l cs ≡ some (l', answers capacity es cs))
      × Models capacity l' (entries_after capacity es cs)
unfolding run answers entries_after
run-Models capacity l es [] m = (l, refl, m)
run-Models capacity l es (c ∷ cs) m =
    let y : Yields capacity (step l c) (answer capacity es c) =
      subst (λ es. Yields capacity (step l c) (answer capacity es c)) m.entries
        (step-Yields capacity l m.addresses c m.rep m.capacity_same) in
    let rest = run-Models capacity y.0 (answer capacity es c).0 cs y.2 in
    (rest.0, rw (y.1, rest.1) refl, rest.2)

-- From a new LRU cache, every sequence of `Get`, `Set`, `Delete`, `Exists`, `Clear` and `GetTTL` runs
-- without a panic and answers like a list of entries, the most recently used first, that drops its
-- last one when it exceeds the capacity; and the cache it leaves stands for the entries of that list.
pub run-answers :
    (capacity : ℤ) (cs : List Call)
    → (l' : LruCache) × (run (new_lru_cache capacity) cs ≡ some (l', answers capacity [] cs))
      × Models capacity l' (entries_after capacity [] cs)
run-answers capacity cs = run-Models capacity (new_lru_cache capacity) [] cs (new-Models capacity)
