-- ===== src/RateLimit/FixedWindow/Log.antt =====
-- One counter of the fixed-window limiter, against the log of all requests that it admitted.
use native.Mathlib.Decide.{dec_lt}
use native.Mathlib.Nat.{div-add-mod, mod-lt}
use apigateway_distributed_s.Base.{
  ℕ, ◌+◌, ◌*◌, ◌/◌, ◌≤◌, ◌<◌, ◌≡◌, refl, ap, ◌∙◌, inl, inr, Bool, true, false, not, List, [], ◌∷◌,
  ◌++◌, arith, ltb, ltb→lt, ltb_false→le, if◌then◌else◌, Bool-cases, All, All-mono, All-append,
  count_if, count_if-append,
}
use apigateway_distributed_s.Base.Int.{ℤ, pos, negsuc, pos_part, leb_ℤ}
use apigateway_distributed_s.RateLimit.FixedWindow.Spec.{start, is_in, has_room}
use apigateway_distributed_s.RateLimit.FixedWindow.{Counter, truncate, roll, check}

-- The counter counts the admissions of its window, and none is in a later one.
pub record Tracks (limit : ℤ) (w last : ℕ) (c : Counter) (log : List ℕ) : Type 0 where
  pub begun : c.window ≤ start w last
  pub counts : count_if (is_in w c.window) log ≡ c.count
  pub earlier : All (λ r. start w r ≤ c.window) log
  pub bounded : (s : ℕ) → count_if (is_in w s) log ≤ pos_part limit

pub start_lem : (w t : ℕ) → start w t ≡ w * (t / w)
start_lem w t = omega (arith, div-add-mod t w)

pub start_mono : (w s t : ℕ) → 0 < w → s ≤ t → start w s ≤ start w t
start_mono w s t h k = elim (dec_lt (t / w) (s / w)) [
  | yes p ↦
      let far : w * (t / w) + w ≤ w * (s / w) = grind arith in
      absurd (omega (arith, div-add-mod t w, div-add-mod s w, mod-lt t h, far))
  | no p ↦
      let near : w * (s / w) ≤ w * (t / w) = grind arith in
      omega (arith, start_lem w s, start_lem w t, near)
]

truncate_pos : (w t : ℕ) → 0 < w → truncate (pos w) t ≡ start w t
unfolding truncate
truncate_pos w t h = ground arith

roll_past :
    (w now : ℕ) (c : Counter)
    → ltb c.window (truncate (pos w) now) ≡ true
    → roll (pos w) now c ≡ record { count = 0; window = truncate (pos w) now }
unfolding roll
roll_past w now c e = rw e refl

roll_same :
    (w now : ℕ) (c : Counter) → ltb c.window (truncate (pos w) now) ≡ false → roll (pos w) now c ≡ c
unfolding roll
roll_same w now c e = rw e refl

count_none : (p : ℕ → Bool) (rs : List ℕ) → All (λ r. p r ≡ false) rs → count_if p rs ≡ 0
count_none p [] h = refl
count_none p (r ∷ rs) h = ground (arith, count_none p rs h.1)

roll-Tracks :
    (limit : ℤ) (w last now : ℕ) (c : Counter) (log : List ℕ)
    → 0 < w
    → last ≤ now
    → Tracks limit w last c log
    → Tracks limit w now (roll (pos w) now c) log × ((roll (pos w) now c).window ≡ start w now)
roll-Tracks limit w last now c log pos_w h t =
    let here = truncate_pos w now pos_w in
    elim (Bool-cases (ltb c.window (truncate (pos w) now))) [
      | inl past ↦
          let later : c.window < start w now = ltb→lt _ _ (rw (← here) past) in
          rw (roll_past w now c past, here)
            (
              record {
                begun = omega arith;
                counts = count_none (is_in w (start w now)) log (
                    All-mono (λ r. start w r ≤ c.window) (λ r. is_in w (start w now) r ≡ false) log
                      (λ r g. ground arith) t.earlier);
                earlier =
                    All-mono (λ r. start w r ≤ c.window) (λ r. start w r ≤ start w now) log
                      (λ r g. omega arith) t.earlier;
                bounded = t.bounded;
              },
              refl,
            )
      | inr same ↦
          let not_later : start w now ≤ c.window = ltb_false→le _ _ (rw (← here) same) in
          let mono = start_mono w last now pos_w h in
          rw (roll_same w now c same) (
            record {
              begun = omega (arith, t.begun);
              counts = t.counts;
              earlier = t.earlier;
              bounded = t.bounded;
            },
            omega (arith, t.begun),
          )
    ]

pub Tracks-fresh :
    (limit : ℤ) (w created now : ℕ)
    → 0 < w
    → created ≤ now
    → Tracks limit w now (record { count = 0; window = truncate (pos w) created }) []
Tracks-fresh limit w created now pos_w h = rw (truncate_pos w created pos_w) (record {
  begun = start_mono w created now pos_w h;
  counts = refl;
  earlier = tt;
  bounded = λ s. omega arith;
})

pub Tracks-later :
    (limit : ℤ) (w last now : ℕ) (c : Counter) (log : List ℕ)
    → 0 < w
    → last ≤ now
    → Tracks limit w last c log
    → Tracks limit w now c log
Tracks-later limit w last now c log pos_w h t = record {
  begun = omega (arith, t.begun, start_mono w last now pos_w h);
  counts = t.counts;
  earlier = t.earlier;
  bounded = t.bounded;
}

check_full :
    (limit : ℤ) (w now : ℕ) (c : Counter)
    → leb_ℤ limit (pos (roll (pos w) now c).count) ≡ true
    → check limit (pos w) now c ≡ (roll (pos w) now c, false)
unfolding check
check_full limit w now c e = rw e refl

check_room :
    (limit : ℤ) (w now : ℕ) (c : Counter)
    → leb_ℤ limit (pos (roll (pos w) now c).count) ≡ false
    → let d = roll (pos w) now c in
      check limit (pos w) now c ≡ (record d { count = d.count + 1 }, true)
unfolding check
check_room limit w now c e = rw e refl

full_iff : (limit : ℤ) (n : ℕ) → ltb n (pos_part limit) ≡ not (leb_ℤ limit (pos n))
full_iff (pos m) n = ground arith
full_iff (negsuc m) n = ground arith

-- One more admission in the counter's window.
count_up :
    (limit : ℤ) (w now : ℕ) (d : Counter) (log : List ℕ)
    → d.window ≡ start w now
    → d.count < pos_part limit
    → Tracks limit w now d log
    → Tracks limit w now (record d { count = d.count + 1 }) (log ++ now ∷ [])
count_up limit w now d log e room t = record {
  begun = t.begun;
  counts = ground (arith, count_if-append (is_in w d.window) log (now ∷ []), t.counts);
  earlier = All-append (λ r. start w r ≤ d.window) log (now ∷ []) t.earlier (omega arith);
  bounded = λ s. ground (
    arith,
    count_if-append (is_in w s) log (now ∷ []),
    t.counts,
    t.bounded s,
    ap (λ x. count_if (is_in w x) log) e,
    count_same s,
  );
}
  where
    count_same :
        (s : ℕ) → start w now ≡ s → count_if (is_in w (start w now)) log ≡ count_if (is_in w s) log
    count_same s e = ap (λ x. count_if (is_in w x) log) e

-- A call answers by the log alone, and goes on tracking it.
pub check-Tracks :
    (limit : ℤ) (w last now : ℕ) (c : Counter) (log : List ℕ)
    → 0 < w
    → last ≤ now
    → Tracks limit w last c log
    → ((check limit (pos w) now c).1 ≡ has_room limit w now log)
      × Tracks limit w now
          (check limit (pos w) now c).0
          (if has_room limit w now log then log ++ now ∷ [] else log)
check-Tracks limit w last now c log pos_w h t =
    let d = roll (pos w) now c in
    let (rolled, here) = roll-Tracks limit w last now c log pos_w h t in
    let count : count_if (is_in w (start w now)) log ≡ d.count = rw (← here) rolled.counts in
    elim (Bool-cases (leb_ℤ limit (pos d.count))) [
      | inl full ↦
          let none_left : has_room limit w now log ≡ false =
            ap (λ n. ltb n (pos_part limit)) count ∙ full_iff limit d.count ∙ ap not full in
          rw (check_full limit w now c full, none_left) (refl, rolled)
      | inr room ↦
          let some_left : has_room limit w now log ≡ true =
            ap (λ n. ltb n (pos_part limit)) count ∙ full_iff limit d.count ∙ ap not room in
          let below : ltb d.count (pos_part limit) ≡ true = full_iff limit d.count ∙ ap not room in
          rw (check_room limit w now c room, some_left)
            (refl, count_up limit w now d log here (ltb→lt _ _ below) rolled)
    ]
