-- ===== src/Cache/Lru/Moves.antt =====
-- Where the item of a key stands in the linked list of the LRU cache, and what the moves of the code
-- do to it there.
use mathlib.Core.Option
use mathlib.Core.List.{append-nil}
use apigateway_distributed_s.Base.{
  ℕ, ◌≡◌, refl, sym, ap, subst, ◌∙◌, inl, inr, false, none, some, List, [], ◌∷◌, ◌++◌, String, map,
  arith, ◌==◌, eq_iff, eq_refl, Option-cases, lookup, delete,
}
use apigateway_distributed_s.Cache.Lru.{
  Item, Memory, LruCache, put, remove_item, move_to_front, evict_lru,
}
use apigateway_distributed_s.Cache.Lru.Linked.{
  has, has-last_of, ne_of_has, last_of, first_of, link, link_front, remove_item_lem,
  add_to_front_lem, prev_of,
}
use apigateway_distributed_s.Cache.Lru.Keys.{
  address_of, address_of-middle, KeysDiffer, Stands-address_of,
}
use apigateway_distributed_s.Cache.Lru.Rep.{
  key_of, Rep, Linked-without, Distinct-without, lookup_here,
}
use apigateway_distributed_s.Cache.Lru.Spec.{Entries, find, without, drop_last}

-- What the map finds is what the entries say.
pub find-map :
    (m : Memory) (k : String) (ps : List ℕ)
    → find k (map m.item ps) ≡ Option.map m.item (address_of (key_of m) k ps)
find-map m k [] = refl
find-map m k (p ∷ ps) = ground (arith, find-map m k ps)

pub without_absent : (k : String) (es : Entries) → find k es ≡ none → without k es ≡ es
without_absent k [] h = refl
without_absent k (e ∷ es) h = ground (arith, without_absent k es)

without-map :
    (m : Memory) (xs : List ℕ) (p : ℕ) (ys : List ℕ)
    → KeysDiffer (key_of m) (xs ++ p ∷ ys)
    → without (key_of m p) (map m.item (xs ++ p ∷ ys)) ≡ map m.item (xs ++ ys)
without-map m [] p ys d = rw (eq_refl (key_of m p)) refl
without-map m (x ∷ xs) p ys d = ground (
  arith,
  without-map m xs p ys d.1,
  address_of-middle (key_of m) (key_of m x) xs p ys d.1,
  eq_iff (key_of m p) (key_of m x),
  eq_iff (key_of m x) (key_of m p),
)

module _ (l : LruCache) where
  -- A key is on no item, or it is the key of an item of the list.
  pub at_key :
      (P : String → List ℕ → Type 0) (k : String) (ps : List ℕ)
      → Rep l ps
      → (lookup k l.items ≡ none → find k (map l.memory.item ps) ≡ none → P k ps)
      → ((xs : List ℕ) (p : ℕ) (ys : List ℕ)
          → Rep l (xs ++ p ∷ ys)
          → P (key_of l.memory p) (xs ++ p ∷ ys))
      → P k ps
  at_key P k ps r absent present = elim (Option-cases (address_of (key_of l.memory) k ps)) [
    | inl e ↦ absent (r.found k ∙ e) (find-map l.memory k ps ∙ ap (Option.map l.memory.item) e)
    | inr (p, e) ↦
        let s = Stands-address_of (key_of l.memory) k ps p e in
        subst (λ j. P j ps) s.has_key
          (subst (P (key_of l.memory p)) (sym s.split)
            (present s.front p s.back (subst (Rep l) s.split r)))
  ]

  module _ (xs : List ℕ) (p : ℕ) (ys : List ℕ) (r : Rep l (xs ++ p ∷ ys)) where
    pub find_here :
        find (key_of l.memory p) (map l.memory.item (xs ++ p ∷ ys)) ≡ some (l.memory.item p)
    find_here =
        find-map l.memory (key_of l.memory p) (xs ++ p ∷ ys)
        ∙ ap (Option.map l.memory.item)
            (sym (r.found (key_of l.memory p)) ∙ lookup_here l xs p ys r)

    pub without_here :
        without (key_of l.memory p) (map l.memory.item (xs ++ p ∷ ys))
        ≡ map l.memory.item (xs ++ ys)
    without_here = without-map l.memory xs p ys r.differ

    pub removed :
        remove_item p l.memory ≡ some (link (last_of l.head xs) (first_of ys l.tail) l.memory)
    removed = remove_item_lem l.memory l.head xs p ys l.tail r.linked

    pub moved :
        move_to_front l.head p l.memory
        ≡ some (
            link_front l.head p
              (first_of (xs ++ ys) l.tail)
              (link (last_of l.head xs) (first_of ys l.tail) l.memory))
    unfolding move_to_front
    moved =
        let d = Distinct-without l xs p ys r in
        rw (removed, move_to_front)
          (add_to_front_lem (link (last_of l.head xs) (first_of ys l.tail) l.memory) l.head p
            (xs ++ ys) l.tail (ground arith) (Linked-without l xs p ys r))

-- The cache without an item, and with the item in front.
abbrev pub unlinked : LruCache → List ℕ → ℕ → List ℕ → LruCache
unlinked l xs p ys = record l {
  items = delete (key_of l.memory p) l.items;
  memory = link (last_of l.head xs) (first_of ys l.tail) l.memory;
}

abbrev pub touched : LruCache → List ℕ → ℕ → List ℕ → LruCache
touched l xs p ys = record l {
  memory =
      link_front l.head p (first_of (xs ++ ys) l.tail)
        (link (last_of l.head xs) (first_of ys l.tail) l.memory);
}

pub map-put :
    (f : ℕ → Item) (p : ℕ) (i : Item) (ps : List ℕ)
    → has p ps ≡ false
    → map (put f p i) ps ≡ map f ps
map-put f p i [] h = refl
map-put f p i (q ∷ ps) h = ground (arith, map-put f p i ps)

drop_last-map :
    {A B : Type 0} (f : A → B) (xs : List A) → drop_last (map f xs) ≡ map f (drop_last xs)
drop_last-map f [] = refl
drop_last-map f (x ∷ []) = refl
drop_last-map f (x ∷ y ∷ xs) = ap (◌∷◌ (f x)) (drop_last-map f (y ∷ xs))

pub drop_last-last_of : (p : ℕ) (ps : List ℕ) → p ∷ ps ≡ drop_last (p ∷ ps) ++ last_of p ps ∷ []
drop_last-last_of p [] = refl
drop_last-last_of p (q ∷ ps) = ap (◌∷◌ p) (drop_last-last_of q ps)

-- The eviction takes the last item out.
module _ (l : LruCache) (p : ℕ) (ps : List ℕ) (r : Rep l (p ∷ ps)) where
  abbrev pub last_one : Rep l (drop_last (p ∷ ps) ++ last_of p ps ∷ [])
  last_one = subst (Rep l) (drop_last-last_of p ps) r

  pub evicted : evict_lru l ≡ some (unlinked l (drop_last (p ∷ ps)) (last_of p ps) [])
  unfolding evict_lru
  evicted =
      let last : l.memory.prev l.tail ≡ some (last_of p ps) =
        prev_of l.memory l.head (p ∷ ps) l.tail r.linked in
      let other : (last_of p ps == l.head) ≡ false =
        let apart =
          ne_of_has l.head (last_of p ps) (p ∷ (ps ++ l.tail ∷ [])) r.distinct.0
            (has-last_of p ps (l.tail ∷ [])) in
        ground arith in
      rw (last, other, removed l (drop_last (p ∷ ps)) (last_of p ps) [] last_one) refl

  pub evicted-entries :
      without (key_of l.memory (last_of p ps)) (map l.memory.item (p ∷ ps))
      ≡ drop_last (map l.memory.item (p ∷ ps))
  evicted-entries =
      ap (λ qs. without (key_of l.memory (last_of p ps)) (map l.memory.item qs))
        (drop_last-last_of p ps)
      ∙ without_here l (drop_last (p ∷ ps)) (last_of p ps) [] last_one
      ∙ ap (map l.memory.item) (append-nil (drop_last (p ∷ ps)))
      ∙ sym (drop_last-map l.memory.item (p ∷ ps))
