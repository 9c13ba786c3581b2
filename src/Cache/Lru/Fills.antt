-- ===== src/Cache/Lru/Fills.antt =====
-- What the state of the LRU cache stands for after a new item, other contents of an item, or `Clear`.
use apigateway_distributed_s.Base.{
  ℕ, ◌+◌, ◌<◌, ◌≡◌, refl, sym, ap, subst, ◌∙◌, Bool, true, false, Option, none, some, List, [], ◌∷◌,
  ◌++◌, String, arith, ◌==◌, str_eq, inl, inr, Bool-cases, ==_iff, All-mono, All-append_right,
  if◌then◌else◌, lookup, insert, lookup-insert, Unique-insert, length-insert_new,
}
use apigateway_distributed_s.Cache.Lru.{Item, Memory, LruCache, put, set_prev, set_next, allocate}
use apigateway_distributed_s.Cache.Lru.Linked.{
  has, nodes, first_of, link_front, frame, has-append, ne_of_has, Linked-add,
}
use apigateway_distributed_s.Cache.Lru.Keys.{address_of, address_of_same, KeysDiffer-same}
use apigateway_distributed_s.Cache.Lru.Rep.{key_of, Rep, distinct_front, has_inner, has_fresh}

key-put :
    (m : Memory) (p : ℕ) (i : Item)
    → i.key ≡ key_of m p
    → (q : ℕ) → (put m.item p i q).key ≡ key_of m q
key-put m p i same q = elim (Bool-cases (p == q)) [
  | inl e ↦ rw (e, same) (ap (key_of m) ((==_iff p q).0 e))
  | inr e ↦ rw e refl
]

module _ (l : LruCache) (ps : List ℕ) (r : Rep l ps) where
  -- The cache with a new item in front.
  pub Rep-add :
      (i : Item)
      → lookup i.key l.items ≡ none
      → Rep
          (record l {
            items = insert i.key l.memory.fresh l.items;
            memory = link_front l.head l.memory.fresh (first_of ps l.tail) (allocate i l.memory);
          })
          (l.memory.fresh ∷ ps)
  Rep-add i new =
      let n = l.memory.fresh in
      let m = allocate i l.memory in
      let fresh : has n (nodes l.head ps l.tail) ≡ false =
        has_fresh n (nodes l.head ps l.tail) r.below in
      let d = distinct_front l.head n (ps ++ l.tail ∷ []) r.distinct fresh in
      let here : (n == n) ≡ true = ground arith in
      let old = λ (q : ℕ) (e : has q ps ≡ true).
        ap (λ (b : Bool). (if b then i else l.memory.item q).key)
          (has_inner l.head ps l.tail n q fresh e) in
      let m' = link_front l.head n (first_of ps l.tail) m in
      let own : key_of m' n ≡ i.key =
        ap (λ (b : Bool). (if b then i else l.memory.item n).key) here in
      let rest =
        λ (k : String). r.found k ∙ sym (address_of_same (key_of l.memory) (key_of m') k ps old) in
      record {
        linked =
            Linked-add m l.head n ps l.tail d
              (frame l.memory m l.head ps l.tail r.linked (λ q e. refl) (λ q e. refl));
        distinct = d;
        below =
            let more =
              All-mono (λ q. q < n) (λ q. q < n + 1) (nodes l.head ps l.tail) (λ q h. omega arith)
                r.below in
            (more.0, (omega arith, more.1));
        found = λ k.
            lookup-insert i.key k n l.items
            ∙ subst
                (λ s.
                  (if str_eq i.key k then some n else lookup k l.items)
                  ≡ (if str_eq s k then some n else address_of (key_of m') k ps))
                (sym own) (ap (λ (o : Option ℕ). if str_eq i.key k then some n else o) (rest k));
        differ = (
          subst (λ s. address_of (key_of m') s ps ≡ none) (sym own) (sym (rest i.key) ∙ new),
          KeysDiffer-same (key_of l.memory) (key_of m') ps old r.differ,
        );
        unique = Unique-insert i.key n l.items r.unique;
        count = omega (arith, length-insert_new i.key n l.items new, r.count);
      }

  -- The cache with other contents in an item, under the same key.
  pub Rep-put :
      (p : ℕ) (i : Item)
      → i.key ≡ key_of l.memory p
      → Rep (record l { memory = record l.memory { item = put l.memory.item p i } }) ps
  Rep-put p i same =
      let m = record l.memory { item = put l.memory.item p i } in
      let keys = λ (q : ℕ) (e : has q ps ≡ true). key-put l.memory p i same q in
      record {
        linked = frame l.memory m l.head ps l.tail r.linked (λ q e. refl) (λ q e. refl);
        distinct = r.distinct;
        below = r.below;
        found = λ k. r.found k ∙ sym (address_of_same (key_of l.memory) (key_of m) k ps keys);
        differ = KeysDiffer-same (key_of l.memory) (key_of m) ps keys r.differ;
        unique = r.unique;
        count = r.count;
      }

  -- The cache with nothing in it.
  pub Rep-clear :
      Rep
        (record l {
          items = [];
          memory = set_prev l.tail (some l.head) (set_next l.head (some l.tail) l.memory);
        })
        []
  unfolding lookup
  Rep-clear =
      let apart : has l.head (ps ++ l.tail ∷ []) ≡ false = r.distinct.0 in
      let ends : (l.head == l.tail) ≡ false =
        ne_of_has l.head l.tail (ps ++ l.tail ∷ []) apart
          (ground (arith, has-append l.tail ps (l.tail ∷ []))) in
      let back = All-append_right (λ q. q < l.memory.fresh) ps (l.tail ∷ []) r.below.1 in
      record {
        linked = (ground arith, ground arith);
        distinct = ground (arith, ends);
        below = (r.below.0, (back.0, tt));
        found = λ k. refl;
        differ = tt;
        unique = tt;
        count = refl;
      }
