-- ===== src/Queue/Priority/Order.antt =====
-- The order in which a priority queue gives its items back.
use mathlib.Core.Path.{subst}
use queue_as_a_service.Base.{
  ℕ, ◌+◌, ◌≤◌, ◌<◌, ◌≡◌, refl, sym, ite, dec_lt, ◌∙◌, u64, true, false, List, [], ◌∷◌, Option, none,
  some, arith, All, total, if◌then◌else◌, Bool-cases, inl, inr, ◌⊎◌,
}
use queue_as_a_service.Queue.Priority.{Entry, PriorityQueue, is_before, pop, push_entry}

module _ {T : Type 0} where
  -- A higher priority, or the same priority and an earlier or the same place.
  abbrev pub IsFirst : Entry T → Entry T → Type 0
  IsFirst a b = (b.priority < a.priority) ⊎ ((a.priority ≡ b.priority) × (a.sequence ≤ b.sequence))

  IsFirst-trans :
      (a b : Entry T) (es : List (Entry T)) → IsFirst a b → All (IsFirst b) es → All (IsFirst a) es
  IsFirst-trans a b [] h hs = tt
  IsFirst-trans a b (c ∷ cs) h (h', hs) = (ground (arith, h, h'), IsFirst-trans a b cs h hs)

  is_before-IsFirst : (a b : Entry T) → is_before a b ≡ true → IsFirst a b
  unfolding is_before
  is_before-IsFirst a b h = ground (arith, h)

  not_before-IsFirst : (a b : Entry T) → is_before b a ≡ false → IsFirst a b
  unfolding is_before
  not_before-IsFirst a b h = ground (arith, h)

  pop_step :
      (e best : Entry T) (es rest : List (Entry T))
      → pop es ≡ some (best, rest)
      → pop (e ∷ es) ≡ (if is_before best e then some (best, e ∷ rest) else some (e, best ∷ rest))
  unfolding pop
  pop_step e best es rest h = rw (h, pop) refl

  -- Of a queue that is not empty, the entry that is popped comes before all others, by its priority and then by
  -- its place, and it makes up the queue together with the rest.
  pub pop_lem :
      (e : Entry T) (es : List (Entry T))
      → (best : Entry T) × (rest : List (Entry T)) × (pop (e ∷ es) ≡ some (best, rest))
        × All (IsFirst best) rest
        × ((w : Entry T → ℕ) → w best + total w rest ≡ total w (e ∷ es))
  unfolding pop
  pop_lem e [] = (e, [], refl, tt, λ w. refl)
  pop_lem e (d ∷ ds) =
      let (b, bs, p, first, sums) = pop_lem d ds in
      elim (Bool-cases (is_before b e)) [
        | inl t ↦ (
          b,
          e ∷ bs,
          pop_step e b (d ∷ ds) bs p ∙ rw t refl,
          (is_before-IsFirst b e t, first),
          λ w. omega (arith, sums w),
        )
        | inr t ↦
            let h = not_before-IsFirst e b t in
            (
              e,
              b ∷ bs,
              pop_step e b (d ∷ ds) bs p ∙ rw t refl,
              (h, IsFirst-trans e b bs h first),
              λ w. omega (arith, sums w),
            )
      ]

  -- Every entry in the queue was numbered before the next one.
  abbrev pub IsNumbered : PriorityQueue T → Type 0
  IsNumbered q = All (λ e. e.sequence < q.next_sequence) q.items

  numbers_grow :
      (n m : ℕ) (es : List (Entry T))
      → n ≤ m
      → All (λ e. e.sequence < n) es
      → All (λ e. e.sequence < m) es
  numbers_grow n m [] h hs = tt
  numbers_grow n m (e ∷ es) h (l, ls) = (omega (arith, h, l), numbers_grow n m es h ls)

  pub push_entry-IsNumbered :
      (item : T) (priority : ℕ) (q : PriorityQueue T)
      → q.next_sequence + 1 < 18446744073709551616
      → IsNumbered q
      → IsNumbered (push_entry item priority q)
  unfolding push_entry
  push_entry-IsNumbered item priority q w h = (
    omega (arith, w),
    numbers_grow q.next_sequence (u64 (q.next_sequence + 1)) q.items (omega (arith, w)) h,
  )

  -- The number of entries that are numbered `n` or later, and that have at least the priority `p`.
  abbrev late : ℕ → List (Entry T) → ℕ
  late n = total (λ e. ite (dec_lt e.sequence n) 0 1)

  abbrev high : ℕ → List (Entry T) → ℕ
  high p = total (λ e. ite (dec_lt e.priority p) 0 1)

  late_none : (n : ℕ) (es : List (Entry T)) → All (λ e. e.sequence < n) es → late n es ≡ 0
  late_none n [] h = refl
  late_none n (e ∷ es) (l, ls) = ground (arith, l, late_none n es ls)

  high_none :
      (best : Entry T) (es : List (Entry T))
      → late best.sequence es ≡ 0
      → All (IsFirst best) es
      → high best.priority es ≡ 0
  high_none best [] h f = refl
  high_none best (e ∷ es) h (f, fs) =
      let rest = λ (l : late best.sequence es ≡ 0). high_none best es l fs in
      ground (arith, h, f, rest)

  none_high : (p : ℕ) (es : List (Entry T)) → high p es ≡ 0 → All (λ e. e.priority < p) es
  none_high p [] h = tt
  none_high p (e ∷ es) h = (ground (arith, h), none_high p es (ground (arith, h)))

  pop-IsFirst :
      (e best : Entry T) (es rest : List (Entry T))
      → pop (e ∷ es) ≡ some (best, rest)
      → All (IsFirst best) rest × ((w : Entry T → ℕ) → w best + total w rest ≡ total w (e ∷ es))
  pop-IsFirst e best es rest h =
      let (b, bs, p, first, sums) = pop_lem e es in
      subst (λ (o : Option (Entry T × List (Entry T))). holds_of o) (sym p ∙ h) (first, sums)
    where
      holds_of : Option (Entry T × List (Entry T)) → Type 0
      holds_of none = Unit
      holds_of (some (b, bs)) =
          All (IsFirst b) bs × ((w : Entry T → ℕ) → w b + total w bs ≡ total w (e ∷ es))

  -- An item that was just pushed comes out next only if every other one has a lower priority: among equal
  -- priorities the queue is first in, first out.
  pub pop-push_entry :
      (item : T) (priority : ℕ) (q : PriorityQueue T) (rest : List (Entry T))
      → IsNumbered q
      → pop (push_entry item priority q).items
        ≡ some (record { priority = priority; sequence = q.next_sequence; item = item }, rest)
      → All (λ e. e.priority < priority) q.items
  unfolding push_entry
  pop-push_entry item priority q rest numbered h =
      let new : Entry T = record { priority = priority; sequence = q.next_sequence; item = item } in
      let (first, sums) = pop-IsFirst new new q.items rest h in
      let none_late = late_none q.next_sequence q.items numbered in
      let lowers =
        high_none new rest
          (omega (arith, none_late, sums (λ e. ite (dec_lt e.sequence q.next_sequence) 0 1)))
          first in
      none_high priority q.items
        (omega (arith, lowers, sums (λ e. ite (dec_lt e.priority priority) 0 1)))
