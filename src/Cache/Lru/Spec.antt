-- ===== src/Cache/Lru/Spec.antt =====
-- The LRU cache as a client sees it: the entries, the most recently used first.
use apigateway_distributed_s.Base.{
  ℕ, Bool, not, false, Option, none, some, List, [], ◌∷◌, String, length, ltb, str_eq,
  if◌then◌else◌,
}
use apigateway_distributed_s.Base.Int.{ℤ, pos, negsuc, sub_ℕ, ltb_ℤ}
use apigateway_distributed_s.Cache.Lru.{Item, is_expired, expiration_of}
use apigateway_distributed_s.Cache.Lru.Calls.{
  Call, gets, sets, deletes, asks, clears, times, Answer, value, flag, ttl, done,
}

abbrev pub Entries : Type 0
Entries = List Item

abbrev pub find : String → Entries → Option Item
find key [] = none
find key (e ∷ es) = if str_eq e.key key then some e else find key es

-- The entries without that of a key.
abbrev pub without : String → Entries → Entries
without key [] = []
without key (e ∷ es) = if str_eq e.key key then es else e ∷ without key es

-- The entries without the least recently used one.
abbrev pub drop_last {ℓ} : {A : Type ℓ} → List A → List A
drop_last [] = []
drop_last (x ∷ []) = []
drop_last (x ∷ y ∷ xs) = x ∷ drop_last (y ∷ xs)

-- An entry that is used goes to the front; one that is found expired goes away.
abbrev pub use_entry : ℕ → String → Entries → Option Item → Entries × Answer
use_entry now key es none = (es, value none)
use_entry now key es (some e) =
    if is_expired now e
    then (without key es, value none)
    else (e ∷ without key es, value (some e.value))

-- A new entry pushes the last one out, if there are more than the capacity says.
abbrev pub store : ℤ → Item → Entries → Option Item → Entries
store capacity i es (some e) = i ∷ without i.key es
store capacity i es none =
    if ltb_ℤ capacity (pos (length (i ∷ es))) then drop_last (i ∷ es) else i ∷ es

abbrev pub ttl_of : ℕ → Option Item → Option ℤ
ttl_of now none = none
ttl_of now (some e) = elim e.expiration [
  | none ↦ some (negsuc 0)
  | some t ↦ if ltb t now then some (pos 0) else some (sub_ℕ t now)
]

abbrev pub is_there : ℕ → Option Item → Bool
is_there now none = false
is_there now (some e) = not (is_expired now e)

unfoldable pub answer : ℤ → Entries → Call → Entries × Answer
answer capacity es (gets now key) = use_entry now key es (find key es)
answer capacity es (sets now key v t) = (
  store capacity (record { key = key; value = v; expiration = expiration_of now t }) es
      (find key es),
  done,
)
answer capacity es (deletes key) = (without key es, done)
answer capacity es (asks now key) = (es, flag (is_there now (find key es)))
answer capacity es clears = ([], done)
answer capacity es (times now key) = (es, ttl (ttl_of now (find key es)))

unfoldable pub answers : ℤ → Entries → List Call → List Answer
answers capacity es [] = []
answers capacity es (c ∷ cs) = let (es', a) = answer capacity es c in a ∷ answers capacity es' cs

-- What is left after the calls.
unfoldable pub entries_after : ℤ → Entries → List Call → Entries
entries_after capacity es [] = es
entries_after capacity es (c ∷ cs) = entries_after capacity (answer capacity es c).0 cs
