-- ===== src/Cache/Lru.antt =====
-- `LRUCache` of internal/cache/memory_cache.go, on an explicit memory of list items. An item is
-- known by its address, `none` is the nil pointer, and a step through nil is a panic, for which a
-- method returns `none`. A byte slice is a list of numbers, and the zero time is `none`.
pub mod Linked
pub mod Keys
pub mod Rep
pub mod Fills
pub mod Calls
pub mod Spec
pub mod Moves
pub mod Steps
pub mod Sets
pub mod Refines
pub mod Bounds
use apigateway_distributed_s.Base.{
  ℕ, ◌+◌, Bool, true, false, not, ◌&&◌, Option, none, some, List, [], ◌∷◌, String, length, ltb,
  ◌==◌, if◌then◌else◌, Dict, lookup, insert, delete,
}
use apigateway_distributed_s.Base.Int.{ℤ, pos, negsuc, pos_part, sub_ℕ, ltb_ℤ}
use apigateway_distributed_s.Cache.{Bytes}

infixl 5 ◌>>=◌
abbrev pub ◌>>=◌ : {A B : Type 0} → Option A → (A → Option B) → Option B
none >>= f = none
some a >>= f = f a

-- What an item holds besides its links.
pub record Item : Type 0 where
  pub key : String
  pub value : Bytes
  pub expiration : Option ℕ

-- The items at their addresses, their links, and the first address that is not in use.
pub record Memory : Type 0 where
  pub item : ℕ → Item
  pub prev : ℕ → Option ℕ
  pub next : ℕ → Option ℕ
  pub fresh : ℕ

pub record LruCache : Type 0 where
  pub capacity : ℤ
  pub items : Dict ℕ
  pub head : ℕ
  pub tail : ℕ
  pub memory : Memory

-- A write at one address.
abbrev pub put : {A : Type 0} → (ℕ → A) → ℕ → A → ℕ → A
put f p a q = if p == q then a else f q

abbrev pub set_prev : ℕ → Option ℕ → Memory → Memory
set_prev p q m = record m { prev = put m.prev p q }

abbrev pub set_next : ℕ → Option ℕ → Memory → Memory
set_next p q m = record m { next = put m.next p q }

abbrev pub empty_item : Item
empty_item = record { key = ""; value = []; expiration = none }

-- The sentinels are the items 0 and 1.
unfoldable pub new_lru_cache : ℤ → LruCache
new_lru_cache capacity =
    let m : Memory = record {
      item = λ p. empty_item;
      prev = λ p. none;
      next = λ p. none;
      fresh = 2;
    } in
    record {
      capacity = capacity;
      items = [];
      head = 0;
      tail = 1;
      memory = set_prev 1 (some 0) (set_next 0 (some 1) m);
    }

-- `item.prev.next = item.next` and `item.next.prev = item.prev`
unfoldable pub remove_item : ℕ → Memory → Option Memory
remove_item p m = do
  before ← m.prev p
  let m' = set_next before (m.next p) m
  after ← m'.next p
  some (set_prev after (m'.prev p) m')

unfoldable pub add_to_front : ℕ → ℕ → Memory → Option Memory
add_to_front head p m = do
  let m' = set_next p (m.next head) (set_prev p (some head) m)
  after ← m'.next head
  some (set_next head (some p) (set_prev after (some p) m'))

unfoldable pub move_to_front : ℕ → ℕ → Memory → Option Memory
unfolding remove_item add_to_front
move_to_front head p m = do m' ← remove_item p m; add_to_front head p m'

-- `!item.expiration.IsZero() && time.Now().After(item.expiration)`
abbrev pub is_expired : ℕ → Item → Bool
is_expired now i = elim i.expiration [ none ↦ false | some t ↦ ltb t now ]

-- A result is `none` for the error `ErrCacheMiss`.
unfoldable pub get_at : LruCache → ℕ → String → Option ℕ → Option (LruCache × Option Bytes)
unfolding remove_item move_to_front
get_at l now key none = some (l, none)
get_at l now key (some p) =
    if is_expired now (l.memory.item p)
    then (do
      m ← remove_item p l.memory
      some (record l { items = delete key l.items; memory = m }, none))
    else (do
      m ← move_to_front l.head p l.memory
      some (record l { memory = m }, some (m.item p).value))

unfoldable pub get : LruCache → ℕ → String → Option (LruCache × Option Bytes)
unfolding get_at
get l now key = get_at l now key (lookup key l.items)

-- `tail.prev`, taken out unless it is the head; a nil there is a panic.
unfoldable pub evict_lru : LruCache → Option LruCache
unfolding remove_item
evict_lru l = do
  last ← l.memory.prev l.tail
  let rest = (do
    m ← remove_item last l.memory
    some (record l { items = delete (m.item last).key l.items; memory = m }))
  if last == l.head then some l else rest

abbrev pub expiration_of : ℕ → ℤ → Option ℕ
expiration_of now ttl = if ltb_ℤ (pos 0) ttl then some (now + pos_part ttl) else none

-- `&lruItem{key, value, expiration}`
abbrev pub allocate : Item → Memory → Memory
allocate i m = record m { item = put m.item m.fresh i; fresh = m.fresh + 1 }

unfoldable pub set_at : LruCache → Item → Option ℕ → Option LruCache
unfolding move_to_front add_to_front evict_lru
set_at l i (some p) = do
  let old = l.memory.item p
  let new = record old { value = i.value; expiration = i.expiration }
  m ← move_to_front l.head p (record l.memory { item = put l.memory.item p new })
  some (record l { memory = m })
set_at l i none = do
  let p = l.memory.fresh
  let items = insert i.key p l.items
  m ← add_to_front l.head p (allocate i l.memory)
  let l' = record l { items = items; memory = m }
  if ltb_ℤ l.capacity (pos (length items)) then evict_lru l' else some l'

unfoldable pub set : LruCache → ℕ → String → Bytes → ℤ → Option LruCache
unfolding set_at
set l now key value ttl =
    set_at l (record { key = key; value = value; expiration = expiration_of now ttl })
      (lookup key l.items)

unfoldable pub delete_at : LruCache → String → Option ℕ → Option LruCache
unfolding remove_item
delete_at l key none = some l
delete_at l key (some p) = do
  m ← remove_item p l.memory
  some (record l { items = delete key l.items; memory = m })

unfoldable pub delete_key : LruCache → String → Option LruCache
unfolding delete_at
delete_key l key = delete_at l key (lookup key l.items)

unfoldable pub exists_at : LruCache → ℕ → Option ℕ → Bool
exists_at l now none = false
exists_at l now (some p) = not (is_expired now (l.memory.item p))

unfoldable pub exists_key : LruCache → ℕ → String → Bool
unfolding exists_at
exists_key l now key = exists_at l now (lookup key l.items)

unfoldable pub clear : LruCache → LruCache
clear l = record l {
  items = [];
  memory = set_prev l.tail (some l.head) (set_next l.head (some l.tail) l.memory);
}

-- `none` is the error `ErrCacheMiss`.
unfoldable pub ttl_at : LruCache → ℕ → Option ℕ → Option ℤ
ttl_at l now none = none
ttl_at l now (some p) = elim (l.memory.item p).expiration [
  | none ↦ some (negsuc 0)
  | some t ↦ if ltb t now then some (pos 0) else some (sub_ℕ t now)
]

unfoldable pub get_ttl : LruCache → ℕ → String → Option ℤ
unfolding ttl_at
get_ttl l now key = ttl_at l now (lookup key l.items)

-- `GetStats`: the capacity and the number of items.
abbrev pub get_stats : LruCache → ℤ × ℕ
get_stats l = (l.capacity, length l.items)
