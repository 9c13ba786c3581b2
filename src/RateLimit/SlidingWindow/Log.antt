-- ===== src/RateLimit/SlidingWindow/Log.antt =====
-- One window of the sliding-window limiter, against the log of all requests that it admitted.
use apigateway_distributed_s.Base.{
  ℕ, ◌+◌, ◌≤◌, ◌<◌, ◌≡◌, refl, sym, ap, subst, ◌∙◌, inl, inr, Bool, true, false, List, [], ◌∷◌,
  ◌++◌, arith, length, ltb, ltb→lt, not, if◌then◌else◌, Bool-cases, All, All-mono, All-append,
  All-append_right, count_if, count_if-append,
}
use mathlib.Core.List.{append_assoc}
use apigateway_distributed_s.Base.Int.{ℤ, pos, negsuc, pos_part, ◌-ℤ◌, ltb_ℤ, leb_ℤ}
use apigateway_distributed_s.RateLimit.SlidingWindow.Spec.{is_recent, is_within, has_room}
use apigateway_distributed_s.RateLimit.SlidingWindow.{Window, drop_old, check}

abbrev pub Ascending : List ℕ → Type 0
Ascending [] = Unit
Ascending (r ∷ rs) = All (λ s. r ≤ s) rs × Ascending rs

pub record Tracks (limit : ℤ) (w last : ℕ) (rs log : List ℕ) : Type 0 where
  pub old : List ℕ
  pub split : log ≡ old ++ rs
  pub gone : All (λ r. r + w < last) old
  pub past : All (λ r. r ≤ last) rs
  pub sorted : Ascending rs
  pub bounded : (a : ℕ) → count_if (is_within w a) log ≤ pos_part limit

before_cutoff : (r now w : ℕ) → ltb_ℤ (pos r) (pos now -ℤ pos w) ≡ ltb (r + w) now
unfolding ◌-ℤ◌
before_cutoff r now w = ground arith

count_none : (p : ℕ → Bool) (rs : List ℕ) → All (λ r. p r ≡ false) rs → count_if p rs ≡ 0
count_none p [] h = refl
count_none p (r ∷ rs) h = ground (arith, count_none p rs h.1)

count_every : (p : ℕ → Bool) (rs : List ℕ) → All (λ r. p r ≡ true) rs → count_if p rs ≡ length rs
count_every p [] h = refl
count_every p (r ∷ rs) h = ground (arith, count_every p rs h.1)

count-le-length : (p : ℕ → Bool) (rs : List ℕ) → count_if p rs ≤ length rs
count-le-length p [] = omega arith
count-le-length p (r ∷ rs) = ground (arith, count-le-length p rs)

-- What the loop drops and what it keeps.
record Drops (w now : ℕ) (rs kept : List ℕ) : Type 0 where
  dropped : List ℕ
  parts : rs ≡ dropped ++ kept
  are_old : All (λ r. r + w < now) dropped
  are_recent : All (λ r. now ≤ r + w) kept
  still_sorted : Ascending kept

drop_old-Drops :
    (w now : ℕ) (rs : List ℕ) → Ascending rs → Drops w now rs (drop_old (pos now -ℤ pos w) rs)
unfolding drop_old
drop_old-Drops w now [] s = record {
  dropped = [];
  parts = refl;
  are_old = tt;
  are_recent = tt;
  still_sorted = tt;
}
drop_old-Drops w now (r ∷ rs) s = elim (Bool-cases (ltb (r + w) now)) [
  | inl old ↦
      let d = drop_old-Drops w now rs s.1 in
      rw (before_cutoff r now w, old)
        (record {
          dropped = r ∷ d.dropped;
          parts = ap (◌∷◌ r) d.parts;
          are_old = (ground arith, d.are_old);
          are_recent = d.are_recent;
          still_sorted = d.still_sorted;
        })
  | inr recent ↦
      rw (before_cutoff r now w, recent)
        (record {
          dropped = [];
          parts = refl;
          are_old = tt;
          are_recent =
              (ground arith, All-mono (λ t. r ≤ t) (λ t. now ≤ t + w) rs (λ t h. ground arith) s.0);
          still_sorted = s;
        })
]

Ascending-snoc :
    (rs : List ℕ) (now : ℕ) → All (λ r. r ≤ now) rs → Ascending rs → Ascending (rs ++ now ∷ [])
Ascending-snoc [] now p s = (tt, tt)
Ascending-snoc (r ∷ rs) now p s =
    (All-append (λ t. r ≤ t) rs (now ∷ []) s.0 (p.0, tt), Ascending-snoc rs now p.1 s.1)

pub Tracks-later :
    (limit : ℤ) (w last now : ℕ) (rs log : List ℕ)
    → last ≤ now
    → Tracks limit w last rs log
    → Tracks limit w now rs log
Tracks-later limit w last now rs log h t = record {
  old = t.old;
  split = t.split;
  gone = All-mono (λ r. r + w < last) (λ r. r + w < now) t.old (λ r g. omega arith) t.gone;
  past = All-mono (λ r. r ≤ last) (λ r. r ≤ now) rs (λ r g. omega arith) t.past;
  sorted = t.sorted;
  bounded = t.bounded;
}

module _ (limit : ℤ) (w last now : ℕ) (rs log : List ℕ) (h : last ≤ now)
    (t : Tracks limit w last rs log) where
  abbrev kept : List ℕ
  kept = drop_old (pos now -ℤ pos w) rs

  drops : Drops w now rs kept
  drops = drop_old-Drops w now rs t.sorted

  abbrev before : List ℕ
  before = t.old ++ drops.dropped

  log_split : log ≡ before ++ kept
  log_split = t.split ∙ ap (◌++◌ t.old) drops.parts ∙ sym (append_assoc t.old drops.dropped kept)

  before_gone : All (λ r. r + w < now) before
  before_gone =
      All-append (λ r. r + w < now) t.old drops.dropped
        (All-mono (λ r. r + w < last) (λ r. r + w < now) t.old (λ r g. omega arith) t.gone)
        drops.are_old

  kept_past : All (λ r. r ≤ now) kept
  kept_past =
      All-append_right (λ r. r ≤ now) drops.dropped kept
        (subst (All (λ r. r ≤ now)) drops.parts
          (All-mono (λ r. r ≤ last) (λ r. r ≤ now) rs (λ r g. omega arith) t.past))

  -- The admissions that are recent at `now` are those that the window keeps.
  recent-kept : count_if (is_recent w now) log ≡ length kept
  recent-kept =
      ap (count_if (is_recent w now)) log_split
      ∙ count_if-append (is_recent w now) before kept
      ∙ omega (
        arith,
        count_none (is_recent w now) before (
            All-mono (λ r. r + w < now) (λ r. is_recent w now r ≡ false) before
              (λ r g. ground arith) before_gone),
        count_every (is_recent w now) kept (
            All-mono (λ r. now ≤ r + w) (λ r. is_recent w now r ≡ true) kept (λ r g. ground arith)
              drops.are_recent),
      )

  pruned : Tracks limit w now kept log
  pruned = record {
    old = before;
    split = log_split;
    gone = before_gone;
    past = kept_past;
    sorted = drops.still_sorted;
    bounded = t.bounded;
  }

  added_bounded :
      length kept < pos_part limit
      → (a : ℕ) → count_if (is_within w a) (log ++ now ∷ []) ≤ pos_part limit
  added_bounded room a = elim (Bool-cases (is_within w a now)) [
    | inl inside ↦
        let whole = ap (count_if (is_within w a)) log_split in
        ground (
          arith,
          count_if-append (is_within w a) log (now ∷ []),
          whole,
          count_if-append (is_within w a) before kept,
          count_none (is_within w a) before (
              All-mono (λ r. r + w < now) (λ r. is_within w a r ≡ false) before
                (λ r g. ground arith) before_gone),
          count-le-length (is_within w a) kept,
        )
    | inr outside ↦ ground (arith, count_if-append (is_within w a) log (now ∷ []), t.bounded a)
  ]

  added : length kept < pos_part limit → Tracks limit w now (kept ++ now ∷ []) (log ++ now ∷ [])
  added room = record {
    old = before;
    split = ap (λ l. l ++ now ∷ []) log_split ∙ append_assoc before kept (now ∷ []);
    gone = before_gone;
    past = All-append (λ r. r ≤ now) kept (now ∷ []) kept_past (omega arith);
    sorted = Ascending-snoc kept now kept_past drops.still_sorted;
    bounded = added_bounded room;
  }

pub Tracks-empty : (limit : ℤ) (w last : ℕ) → Tracks limit w last [] []
Tracks-empty limit w last = record {
  old = [];
  split = refl;
  gone = tt;
  past = tt;
  sorted = tt;
  bounded = λ a. omega arith;
}

check_full :
    (limit : ℤ) (w now : ℕ) (win : Window)
    → let k = drop_old (pos now -ℤ pos w) win.requests in
      leb_ℤ limit (pos (length k)) ≡ true
      → check limit (pos w) now win ≡ (record { requests = k }, false)
unfolding check
check_full limit w now win e = rw e refl

check_room :
    (limit : ℤ) (w now : ℕ) (win : Window)
    → let k = drop_old (pos now -ℤ pos w) win.requests in
      leb_ℤ limit (pos (length k)) ≡ false
      → check limit (pos w) now win ≡ (record { requests = k ++ now ∷ [] }, true)
unfolding check
check_room limit w now win e = rw e refl

full_iff : (limit : ℤ) (n : ℕ) → ltb n (pos_part limit) ≡ not (leb_ℤ limit (pos n))
full_iff (pos m) n = ground arith
full_iff (negsuc m) n = ground arith

-- A call answers by the log alone, and goes on tracking it.
pub check-Tracks :
    (limit : ℤ) (w last now : ℕ) (win : Window) (log : List ℕ)
    → last ≤ now
    → Tracks limit w last win.requests log
    → ((check limit (pos w) now win).1 ≡ has_room limit w now log)
      × Tracks limit w now
          (check limit (pos w) now win).0.requests
          (if has_room limit w now log then log ++ now ∷ [] else log)
check-Tracks limit w last now win log h t =
    let k = drop_old (pos now -ℤ pos w) win.requests in
    let count : count_if (is_recent w now) log ≡ length k =
      recent-kept limit w last now win.requests log h t in
    elim (Bool-cases (leb_ℤ limit (pos (length k)))) [
      | inl full ↦
          let none_left : has_room limit w now log ≡ false =
            ap (λ n. ltb n (pos_part limit)) count ∙ full_iff limit (length k) ∙ ap not full in
          rw (check_full limit w now win full, none_left)
            (refl, pruned limit w last now win.requests log h t)
      | inr room ↦
          let some_left : has_room limit w now log ≡ true =
            ap (λ n. ltb n (pos_part limit)) count ∙ full_iff limit (length k) ∙ ap not room in
          let below : ltb (length k) (pos_part limit) ≡ true =
            full_iff limit (length k) ∙ ap not room in
          rw (check_room limit w now win room, some_left)
            (refl, added limit w last now win.requests log h t (ltb→lt _ _ below))
    ]
