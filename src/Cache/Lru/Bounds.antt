-- ===== src/Cache/Lru/Bounds.antt =====
-- That the LRU cache holds no more than its capacity, and keeps what it was given.
use apigateway_distributed_s.Base.{
  ℕ, suc, ◌≤◌, ◌≡◌, refl, ap, sym, ◌∙◌, ◌+◌, ◌&&◌, ltb, none, inl, inr, true, false, some, List, [],
  ◌∷◌, String, length, arith, eq_refl, Bool-cases, Option-cases, length-map, if◌then◌else◌,
}
use apigateway_distributed_s.Base.Int.{ℤ, pos, pos_part, ltb_ℤ}
use apigateway_distributed_s.Cache.{Bytes}
use apigateway_distributed_s.Cache.Lru.{Item, LruCache, new_lru_cache, is_expired, expiration_of}
use apigateway_distributed_s.Cache.Lru.Calls.{
  Call, gets, sets, deletes, asks, clears, times, value, done, run,
}
use apigateway_distributed_s.Cache.Lru.Spec.{
  Entries, find, without, drop_last, use_entry, store, answer, answers, entries_after,
}
use apigateway_distributed_s.Cache.Lru.Steps.{Models}
use apigateway_distributed_s.Cache.Lru.Refines.{run-answers, run-Models}

length-without_found :
    (k : String) (es : Entries) (e : Item)
    → find k es ≡ some e
    → length (e ∷ without k es) ≡ length es
length-without_found k [] e h = ground arith
length-without_found k (x ∷ es) e h = ground (arith, length-without_found k es e)

length-without : (k : String) (es : Entries) → length (without k es) ≤ length es
length-without k [] = omega arith
length-without k (x ∷ es) = ground (arith, length-without k es)

length-drop_last : (i : Item) (es : Entries) → length (drop_last (i ∷ es)) ≡ length es
length-drop_last i [] = refl
length-drop_last i (e ∷ es) = ap suc (length-drop_last e es)

module _ (capacity : ℤ) (es : Entries) (fits : length es ≤ pos_part capacity) where
  length-use_entry :
      (now : ℕ) (k : String) → length (use_entry now k es (find k es)).0 ≤ pos_part capacity
  length-use_entry now k = elim (Option-cases (find k es)) [
    | inl e ↦ rw e fits
    | inr (i, e) ↦ rw e (elim (Bool-cases (is_expired now i)) [
      | inl x ↦ rw x (omega (arith, length-without k es, fits))
      | inr x ↦ rw x (omega (arith, length-without_found k es i e, fits))
    ])
  ]

  length-store : (i : Item) → length (store capacity i es (find i.key es)) ≤ pos_part capacity
  length-store i = elim (Option-cases (find i.key es)) [
    | inl e ↦ rw e (elim (Bool-cases (ltb_ℤ capacity (pos (length (i ∷ es))))) [
      | inl over ↦ rw over (omega (arith, length-drop_last i es, fits))
      | inr under ↦ rw under (ground arith)
    ])
    | inr (old, e) ↦ rw e (omega (arith, length-without_found i.key es old e, fits))
  ]

  length-answer : (c : Call) → length (answer capacity es c).0 ≤ pos_part capacity
  unfolding answer
  length-answer (gets now k) = length-use_entry now k
  length-answer (sets now k v t) =
      length-store (record { key = k; value = v; expiration = expiration_of now t })
  length-answer (deletes k) = omega (arith, length-without k es, fits)
  length-answer (asks now k) = fits
  length-answer clears = omega arith
  length-answer (times now k) = fits

length-entries_after :
    (capacity : ℤ) (es : Entries) (cs : List Call)
    → length es ≤ pos_part capacity
    → length (entries_after capacity es cs) ≤ pos_part capacity
unfolding entries_after
length-entries_after capacity es [] fits = fits
length-entries_after capacity es (c ∷ cs) fits =
    length-entries_after capacity (answer capacity es c).0 cs (length-answer capacity es fits c)

-- After every sequence of calls of a new LRU cache the map holds no more items than the capacity,
-- and none if the capacity is negative.
pub run-le-capacity :
    (capacity : ℤ) (cs : List Call)
    → (l' : LruCache) × (run (new_lru_cache capacity) cs ≡ some (l', answers capacity [] cs))
      × (length l'.items ≤ pos_part capacity)
run-le-capacity capacity cs =
    let (l', e, m) = run-answers capacity cs in
    (
      l',
      e,
      omega (
        arith,
        m.rep.count,
        length-map l'.memory.item m.addresses,
        ap length m.entries,
        length-entries_after capacity [] cs (omega arith),
      ),
    )

find-store :
    (capacity : ℤ) (i : Item) (es : Entries)
    → ltb_ℤ (pos 0) capacity ≡ true
    → find i.key (store capacity i es (find i.key es)) ≡ some i
find-store capacity i es room = elim (Option-cases (find i.key es)) [
  | inl e ↦ rw e (first_stays es)
  | inr (old, e) ↦ rw (e, eq_refl i.key) refl
]
  where
    first_stays :
        (es : Entries)
        → find i.key (if ltb_ℤ capacity (pos (length (i ∷ es))) then drop_last (i ∷ es) else i ∷ es)
          ≡ some i
    first_stays [] =
        let under : ltb_ℤ capacity (pos 1) ≡ false = ground arith in rw (under, eq_refl i.key) refl
    first_stays (x ∷ es) = ground (arith, eq_refl i.key)

is_expired-expiration_of :
    (now later : ℕ) (k : String) (v : Bytes) (t : ℤ)
    → is_expired later (record { key = k; value = v; expiration = expiration_of now t })
      ≡ ltb_ℤ (pos 0) t && ltb (now + pos_part t) later
is_expired-expiration_of now later k v t = elim (Bool-cases (ltb_ℤ (pos 0) t)) [
  | inl e ↦ rw e refl
  | inr e ↦ rw e refl
]

-- In an LRU cache with room for an entry, whatever it holds, a `Get` after a `Set` of the same key
-- misses if the duration of the `Set` is positive and has passed, and answers the value otherwise.
pub run-set-get :
    (capacity : ℤ) (l : LruCache) (es : Entries)
    → Models capacity l es
    → ltb_ℤ (pos 0) capacity ≡ true
    → (now later : ℕ) (k : String) (v : Bytes) (t : ℤ)
    → (l' : LruCache) × (run l (sets now k v t ∷ gets later k ∷ [])
        ≡ some (
          l',
          done
              ∷ value (if ltb_ℤ (pos 0) t && ltb (now + pos_part t) later then none else some v)
              ∷ [],
        ))
unfolding answers answer
run-set-get capacity l es m room now later k v t =
    let i : Item = record { key = k; value = v; expiration = expiration_of now t } in
    let (l', e, m') = run-Models capacity l es (sets now k v t ∷ gets later k ∷ []) m in
    let expired = is_expired-expiration_of now later k v t in
    (
      l',
      e ∙ elim (Bool-cases (is_expired later i)) [
        | inl x ↦ rw (find-store capacity i es room, x, sym expired ∙ x) refl
        | inr x ↦ rw (find-store capacity i es room, x, sym expired ∙ x) refl
      ],
    )
