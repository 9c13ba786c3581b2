-- ===== src/Cache/Lru/Sets.antt =====
-- That `Set` of the LRU cache puts an entry in front, and takes the last one out if there are too many.
use apigateway_distributed_s.Base.{
  ℕ, ◌≡◌, refl, sym, ap, subst, ◌∙◌, inl, inr, Bool, true, false, none, some, List, [], ◌∷◌, ◌++◌,
  String, map, length, arith, ◌==◌, Bool-cases, length-map, length-insert_new, if◌then◌else◌,
  lookup, insert,
}
use apigateway_distributed_s.Base.Int.{ℤ, pos, ltb_ℤ}
use apigateway_distributed_s.Cache.{Bytes}
use apigateway_distributed_s.Cache.Lru.{
  Item, LruCache, allocate, put, expiration_of, add_to_front, move_to_front, set_at, set, ◌>>=◌,
}
use apigateway_distributed_s.Cache.Lru.Linked.{
  has, has-append, frame, last_of, first_of, link_front, add_to_front_lem,
}
use apigateway_distributed_s.Cache.Lru.Rep.{has_fresh, key_of, Rep, Distinct-without, lookup_here}
use apigateway_distributed_s.Cache.Lru.Fills.{Rep-add, Rep-put}
use apigateway_distributed_s.Cache.Lru.Calls.{sets, done, step}
use apigateway_distributed_s.Cache.Lru.Spec.{without, drop_last, store, answer}
use apigateway_distributed_s.Cache.Lru.Moves.{
  at_key, find_here, without_here, moved, unlinked, touched, map-put, evicted,
}
use apigateway_distributed_s.Cache.Lru.Steps.{Yields, touched-Models, evicted-Models}

module _ (capacity : ℤ) (l : LruCache) (same : l.capacity ≡ capacity) where
  module _ (i : Item) (ps : List ℕ) (r : Rep l ps) (new : lookup i.key l.items ≡ none) where
    abbrev n : ℕ
    n = l.memory.fresh

    abbrev added : LruCache
    added = record l {
      items = insert i.key n l.items;
      memory = link_front l.head n (first_of ps l.tail) (allocate i l.memory);
    }

    added-Rep : Rep added (n ∷ ps)
    added-Rep = Rep-add l ps r i new

    in_front :
        add_to_front l.head n (allocate i l.memory)
        ≡ some (link_front l.head n (first_of ps l.tail) (allocate i l.memory))
    in_front =
        let apart : (n == l.head) ≡ false = ground (arith, r.below.0) in
        add_to_front_lem (allocate i l.memory) l.head n ps l.tail apart (
          frame l.memory (allocate i l.memory) l.head ps l.tail r.linked (λ q e. refl)
            (λ q e. refl))

    added-entries : map added.memory.item (n ∷ ps) ≡ i ∷ map l.memory.item ps
    added-entries =
        let here : (n == n) ≡ true = ground arith in
        let out : has n ps ≡ false =
          ground
            (arith, has_fresh n (ps ++ l.tail ∷ []) r.below.1, has-append n ps (l.tail ∷ [])) in
        rw (map-put l.memory.item n i ps out)
          (ap (λ (b : Bool). (if b then i else l.memory.item n) ∷ map l.memory.item ps) here)

    full :
        ltb_ℤ l.capacity (pos (length (insert i.key n l.items)))
        ≡ ltb_ℤ capacity (pos (length (i ∷ map l.memory.item ps)))
    full =
        let sizes : length (insert i.key n l.items) ≡ length (i ∷ map l.memory.item ps) =
          omega
            (arith, length-insert_new i.key n l.items new, r.count, length-map l.memory.item ps) in
        rw (same, sizes) refl

    -- A new entry, and the eviction of the last one where there are too many.
    added-Yields :
        Yields capacity
          (set_at l i none >>= λ l'. some (l', done))
          (store capacity i (map l.memory.item ps) none, done)
    unfolding set_at
    added-Yields =
        rw (in_front, full)
          (elim (Bool-cases (ltb_ℤ capacity (pos (length (i ∷ map l.memory.item ps))))) [
            | inl over ↦ rw over (
              unlinked added (drop_last (n ∷ ps)) (last_of n ps) [],
              rw (evicted added n ps added-Rep) refl,
              evicted-Models capacity added same n ps (i ∷ map l.memory.item ps) added-Rep
                  added-entries,
            )
            | inr fits ↦ rw fits (
              added,
              refl,
              record {
                addresses = n ∷ ps;
                rep = added-Rep;
                entries = added-entries;
                capacity_same = same;
              },
            )
          ])

  -- The entry of the key with new contents, in front.
  module _ (i : Item) (xs : List ℕ) (p : ℕ) (ys : List ℕ) (r : Rep l (xs ++ p ∷ ys))
      (own_key : i.key ≡ key_of l.memory p) where
    abbrev updated : LruCache
    updated = record l { memory = record l.memory { item = put l.memory.item p i } }

    updated-Rep : Rep updated (xs ++ p ∷ ys)
    updated-Rep = Rep-put l (xs ++ p ∷ ys) r p i own_key

    updated_item : updated.memory.item p ≡ i
    updated_item =
        ap (λ (b : Bool). if b then i else l.memory.item p) {x = p == p} {y = true} (ground arith)

    updated_others : map updated.memory.item (xs ++ ys) ≡ map l.memory.item (xs ++ ys)
    updated_others =
        let out = (Distinct-without l xs p ys r).1 in
        map-put l.memory.item p i (xs ++ ys) (ground (arith, has-append p (xs ++ ys) (l.tail ∷ [])))

    updated-entries :
        i ∷ without i.key (map l.memory.item (xs ++ p ∷ ys))
        ≡ updated.memory.item p
          ∷ without (key_of updated.memory p) (map updated.memory.item (xs ++ p ∷ ys))
    updated-entries =
        let rest =
          ap (λ k. without k (map l.memory.item (xs ++ p ∷ ys))) own_key
          ∙ without_here l xs p ys r
          ∙ sym updated_others
          ∙ sym (without_here updated xs p ys updated-Rep) in
        ap (◌∷◌ i) rest
        ∙ ap (λ e. e ∷ without (key_of updated.memory p) (map updated.memory.item (xs ++ p ∷ ys)))
            (sym updated_item)

  updated-Yields :
      (i : Item) (xs : List ℕ) (p : ℕ) (ys : List ℕ) (r : Rep l (xs ++ p ∷ ys))
      → i.key ≡ key_of l.memory p
      → Yields capacity
          (set_at l i (some p) >>= λ l'. some (l', done))
          (i ∷ without i.key (map l.memory.item (xs ++ p ∷ ys)), done)
  unfolding set_at
  updated-Yields i xs p ys r e =
      let new = updated-Rep i xs p ys r e in
      subst
        (λ k.
          Yields capacity
            (move_to_front l.head p
                (record l.memory { item = put l.memory.item p (record i { key = k }) })
              >>= (λ m. some (record l { memory = m }))
              >>= λ l'. some (l', done))
            (i ∷ without i.key (map l.memory.item (xs ++ p ∷ ys)), done))
        e
        (
          touched (updated i xs p ys r e) xs p ys,
          rw (moved (updated i xs p ys r e) xs p ys new) refl,
          touched-Models capacity (updated i xs p ys r e) same xs p ys _ new
              (updated-entries i xs p ys r e),
        )

  pub sets-Yields :
      (now : ℕ) (k : String) (v : Bytes) (t : ℤ) (ps : List ℕ)
      → Rep l ps
      → Yields capacity
          (step l (sets now k v t))
          (answer capacity (map l.memory.item ps) (sets now k v t))
  unfolding step set answer
  sets-Yields now k v t ps r =
      at_key l
        (λ k ps.
          Yields capacity (step l (sets now k v t))
            (answer capacity (map l.memory.item ps) (sets now k v t)))
        k ps r
        (λ none_in none_at.
          rw (none_in, none_at)
            (added-Yields (record { key = k; value = v; expiration = expiration_of now t }) ps r
              none_in))
        (λ xs p ys r'.
          let i : Item = record {
            key = key_of l.memory p;
            value = v;
            expiration = expiration_of now t;
          } in
          rw (lookup_here l xs p ys r', find_here l xs p ys r') (updated-Yields i xs p ys r' refl))
