-- ===== src/Cache/Lru/Steps.antt =====
-- That a call of the LRU cache which stores nothing new keeps what the cache stands for.
use apigateway_distributed_s.Base.{
  ℕ, ◌≡◌, refl, sym, ap, ◌∙◌, inl, inr, Option, some, List, [], ◌∷◌, ◌++◌, String, map, arith,
  Bool-cases,
}
use apigateway_distributed_s.Base.Int.{ℤ}
use apigateway_distributed_s.Cache.Lru.{
  LruCache, is_expired, get_at, get, delete_key, exists_key, clear, get_ttl,
}
use apigateway_distributed_s.Cache.Lru.Linked.{last_of}
use apigateway_distributed_s.Cache.Lru.Rep.{key_of, Rep, Rep-unlink, Rep-touch, lookup_here}
use apigateway_distributed_s.Cache.Lru.Fills.{Rep-clear}
use apigateway_distributed_s.Cache.Lru.Calls.{gets, deletes, asks, clears, times, Answer, step}
use apigateway_distributed_s.Cache.Lru.Spec.{Entries, without, drop_last, answer}
use apigateway_distributed_s.Cache.Lru.Moves.{
  without_absent, at_key, find_here, without_here, removed, moved, unlinked, touched,
  drop_last-last_of, last_one, evicted-entries,
}

-- The cache stands for these entries.
pub record Models (capacity : ℤ) (l : LruCache) (es : Entries) : Type 0 where
  pub addresses : List ℕ
  pub rep : Rep l addresses
  pub entries : map l.memory.item addresses ≡ es
  pub capacity_same : l.capacity ≡ capacity

-- A run of the code that ends without a panic, with an answer and a cache that stands for entries.
abbrev pub Yields : ℤ → Option (LruCache × Answer) → Entries × Answer → Type 0
Yields capacity r e = (l' : LruCache) × (r ≡ some (l', e.1)) × Models capacity l' e.0

module _ (capacity : ℤ) (l : LruCache) (same : l.capacity ≡ capacity) where
  pub stays :
      (ps : List ℕ) (es : Entries) → Rep l ps → es ≡ map l.memory.item ps → Models capacity l es
  stays ps es r e = record { addresses = ps; rep = r; entries = sym e; capacity_same = same }

  pub unlinked-Models :
      (xs : List ℕ) (p : ℕ) (ys : List ℕ) (es : Entries)
      → Rep l (xs ++ p ∷ ys)
      → es ≡ without (key_of l.memory p) (map l.memory.item (xs ++ p ∷ ys))
      → Models capacity (unlinked l xs p ys) es
  unlinked-Models xs p ys es r e = record {
    addresses = xs ++ ys;
    rep = Rep-unlink l xs p ys r;
    entries = sym (e ∙ without_here l xs p ys r);
    capacity_same = same;
  }

  pub touched-Models :
      (xs : List ℕ) (p : ℕ) (ys : List ℕ) (es : Entries)
      → Rep l (xs ++ p ∷ ys)
      → es ≡ l.memory.item p ∷ without (key_of l.memory p) (map l.memory.item (xs ++ p ∷ ys))
      → Models capacity (touched l xs p ys) es
  touched-Models xs p ys es r e = record {
    addresses = p ∷ (xs ++ ys);
    rep = Rep-touch l xs p ys r;
    entries = sym (e ∙ ap (◌∷◌ (l.memory.item p)) (without_here l xs p ys r));
    capacity_same = same;
  }

  pub gets-Yields :
      (now : ℕ) (k : String) (ps : List ℕ)
      → Rep l ps
      → Yields capacity (step l (gets now k)) (answer capacity (map l.memory.item ps) (gets now k))
  unfolding step get get_at answer
  gets-Yields now k ps r =
      at_key l
        (λ k ps.
          Yields capacity (step l (gets now k))
            (answer capacity (map l.memory.item ps) (gets now k)))
        k ps r (λ none_in none_at. (l, rw (none_in, none_at) refl, stays ps _ r (rw none_at refl)))
        (λ xs p ys r'. elim (Bool-cases (is_expired now (l.memory.item p))) [
          | inl old ↦ (
            unlinked l xs p ys,
            rw (lookup_here l xs p ys r', find_here l xs p ys r', old, removed l xs p ys r') refl,
            unlinked-Models xs p ys _ r' (rw (find_here l xs p ys r', old) refl),
          )
          | inr young ↦ (
            touched l xs p ys,
            rw (lookup_here l xs p ys r', find_here l xs p ys r', young, moved l xs p ys r') refl,
            touched-Models xs p ys _ r' (rw (find_here l xs p ys r', young) refl),
          )
        ])

  pub deletes-Yields :
      (k : String) (ps : List ℕ)
      → Rep l ps
      → Yields capacity (step l (deletes k)) (answer capacity (map l.memory.item ps) (deletes k))
  unfolding step delete_key answer
  deletes-Yields k ps r =
      at_key l
        (λ k ps.
          Yields capacity (step l (deletes k)) (answer capacity (map l.memory.item ps) (deletes k)))
        k ps r
        (λ none_in none_at.
          (l, rw none_in refl, stays ps _ r (without_absent k (map l.memory.item ps) none_at)))
        (λ xs p ys r'. (
          unlinked l xs p ys,
          rw (lookup_here l xs p ys r', removed l xs p ys r') refl,
          unlinked-Models xs p ys _ r' refl,
        ))

  pub asks-Yields :
      (now : ℕ) (k : String) (ps : List ℕ)
      → Rep l ps
      → Yields capacity (step l (asks now k)) (answer capacity (map l.memory.item ps) (asks now k))
  unfolding step exists_key answer
  asks-Yields now k ps r =
      at_key l
        (λ k ps.
          Yields capacity (step l (asks now k))
            (answer capacity (map l.memory.item ps) (asks now k)))
        k ps r (λ none_in none_at. (l, rw (none_in, none_at) refl, stays ps _ r refl))
        (λ xs p ys r'. (
          l,
          rw (lookup_here l xs p ys r', find_here l xs p ys r') refl,
          stays (xs ++ p ∷ ys) _ r' refl,
        ))

  pub times-Yields :
      (now : ℕ) (k : String) (ps : List ℕ)
      → Rep l ps
      → Yields capacity
          (step l (times now k))
          (answer capacity (map l.memory.item ps) (times now k))
  unfolding step get_ttl answer
  times-Yields now k ps r =
      at_key l
        (λ k ps.
          Yields capacity (step l (times now k))
            (answer capacity (map l.memory.item ps) (times now k)))
        k ps r (λ none_in none_at. (l, rw (none_in, none_at) refl, stays ps _ r refl))
        (λ xs p ys r'. (
          l,
          rw (lookup_here l xs p ys r', find_here l xs p ys r') (ground arith),
          stays (xs ++ p ∷ ys) _ r' refl,
        ))

  pub clears-Yields :
      (ps : List ℕ)
      → Rep l ps
      → Yields capacity (step l clears) (answer capacity (map l.memory.item ps) clears)
  unfolding step clear answer
  clears-Yields ps r = (
    _,
    refl,
    record { addresses = []; rep = Rep-clear l ps r; entries = refl; capacity_same = same },
  )

module _ (capacity : ℤ) (l : LruCache) (same : l.capacity ≡ capacity) where
  pub evicted-Models :
      (p : ℕ) (ps : List ℕ) (es : Entries)
      → Rep l (p ∷ ps)
      → map l.memory.item (p ∷ ps) ≡ es
      → Models capacity (unlinked l (drop_last (p ∷ ps)) (last_of p ps) []) (drop_last es)
  evicted-Models p ps es r e =
      unlinked-Models capacity l same (drop_last (p ∷ ps)) (last_of p ps) [] (drop_last es)
        (last_one l p ps r)
        (sym (ap drop_last e)
          ∙ sym (evicted-entries l p ps r)
          ∙ ap (λ qs. without (key_of l.memory (last_of p ps)) (map l.memory.item qs))
              (drop_last-last_of p ps))
