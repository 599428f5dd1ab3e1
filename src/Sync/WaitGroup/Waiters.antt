-- ===== src/Sync/WaitGroup/Waiters.antt =====
-- Nobody is left waiting, and the second check of `wait_group_add` never fails.
use pentagon.Prelude.{
  is_panic, ℕ, ◌+◌, ◌-◌, ◌*◌, ◌%◌, ◌^◌, ◌<◌, ◌≡◌, ◌≢◌, refl, subst, ap, arith, Bool, true, false,
  Bool-cases, inl, inr, ◌&&◌, ◌||◌, not, ◌==◌, ltb, if◌then◌else◌, Outcome, done, panic, waits,
}
use pentagon.Sync.WaitGroup.{
  release, release_one, Adder, nobody, zeroed, checked, WaitGroup, counter, waiters, is_negative,
  wait_group_add, wake_next, wake_waiters, wait_group_wait, wake_up, Step, add, wake, wait, leave,
  Reach, begin, then_step,
}

-- What the thread that set the counter to 0 relies on.
abbrev pub Relies : Adder → ℕ → Type 0
Relies nobody state = 0 < waiters state → 0 < counter state
Relies (zeroed s) state = (state ≡ s) × (counter state ≡ 0)
Relies (checked w) state = (waiters state ≡ w) × (counter state ≡ 0)

pub record IsCounted (g : WaitGroup) : Type 0 where
  pub word : g.state < 2 ^ 63
  pub parked : g.parked ≡ waiters g.state + g.releasing + g.permits
  pub few : g.parked < 2 ^ 32
  pub relies : Relies g.adder g.state

abbrev Keeps : Outcome WaitGroup → Type 0
Keeps (done h) = IsCounted h
Keeps panic = Unit
Keeps waits = Unit

if-Keeps :
    (b : Bool) (x y : Outcome WaitGroup)
    → (b ≡ true → Keeps x)
    → (b ≡ false → Keeps y)
    → Keeps (if b then x else y)
if-Keeps true x y p q = p refl
if-Keeps false x y p q = q refl

add-Keeps :
    (delta state permits releasing parked : ℕ)
    → let g : WaitGroup = record {
      state = state;
      permits = permits;
      adder = nobody;
      releasing = releasing;
      parked = parked;
    } in
      IsCounted g → delta < 2 ^ 32 → Keeps (wait_group_add delta g)
unfolding wait_group_add
add-Keeps delta state permits releasing parked v b =
    let s = (state + delta * 2 ^ 32) % 2 ^ 64 in
    let same : waiters s ≡ waiters state = omega arith in
    let g : WaitGroup = record {
      state = s;
      permits = permits;
      adder = nobody;
      releasing = releasing;
      parked = parked;
    } in
    let misuse =
      not (waiters s == 0) && not (delta == 0) && not (is_negative delta) && counter s == delta in
    let none_to_wake = ltb 0 (counter s) || waiters s == 0 in
    let woken = record g { adder = zeroed s } in
    let rest = if none_to_wake then done g else done woken in
    if-Keeps (is_negative (counter s)) panic (if misuse then panic else rest) (λ _. tt)
      (λ positive.
        if-Keeps misuse panic rest (λ _. tt)
          (λ _.
            if-Keeps none_to_wake (done g) (done woken)
              (λ h. record {
                word = ground arith;
                parked = omega (arith, same, v.parked);
                few = v.few;
                relies = λ pos. ground arith;
              })
              (λ h. record {
                word = ground arith;
                parked = omega (arith, same, v.parked);
                few = v.few;
                relies = (refl, ground arith);
              })))

Relies-wait :
    (a : Adder) (s t : ℕ) → counter s ≢ 0 → counter t ≡ counter s → Relies a s → Relies a t
Relies-wait nobody s t ne same r = λ _. omega (arith, ne, same)
Relies-wait (zeroed x) s t ne same r = absurd (ne r.1)
Relies-wait (checked w) s t ne same r = absurd (ne r.1)

wait-IsCounted :
    (g : WaitGroup) → IsCounted g → g.parked + 1 < 2 ^ 32 → IsCounted (wait_group_wait g).1
unfolding wait_group_wait
wait-IsCounted g v b = elim (Bool-cases (counter g.state == 0)) [
  | inl e ↦ rw e v
  | inr e ↦
      let small : waiters g.state + 1 < 2 ^ 32 = omega (arith, v.parked, b) in
      let one_more : waiters ((g.state + 1) % 2 ^ 64) ≡ waiters g.state + 1 =
        omega (arith, small, v.word) in
      let same : counter ((g.state + 1) % 2 ^ 64) ≡ counter g.state =
        omega (arith, small, v.word) in
      rw e (record {
        word = omega (arith, same, v.word, one_more);
        parked = omega (arith, one_more, v.parked);
        few = b;
        relies = Relies-wait g.adder g.state ((g.state + 1) % 2 ^ 64) (ground arith) same v.relies;
      })
]

wake_up-Keeps : (g : WaitGroup) → IsCounted g → Keeps (wake_up g)
unfolding wake_up
wake_up-Keeps g v =
    if-Keeps (g.permits == 0) waits
      (done (record g { permits = g.permits - 1; parked = g.parked - 1 })) (λ _. tt)
      (λ e. record {
        word = v.word;
        parked = let p = v.parked in ground arith;
        few = let f = v.few in ground arith;
        relies = v.relies;
      })

wake_next-Keeps :
    (a : Adder) (state permits releasing parked : ℕ)
    → let g : WaitGroup = record {
      state = state;
      permits = permits;
      adder = a;
      releasing = releasing;
      parked = parked;
    } in
      IsCounted g → Keeps (wake_next a g)
wake_next-Keeps nobody state permits releasing parked v = tt
wake_next-Keeps (zeroed s) state permits releasing parked v =
    let g : WaitGroup = record {
      state = state;
      permits = permits;
      adder = checked (waiters s);
      releasing = releasing;
      parked = parked;
    } in
    if-Keeps (state == s) (done g) panic
      (λ _. record {
        word = v.word;
        parked = v.parked;
        few = v.few;
        relies = (ap (λ x. waiters x) v.relies.0, v.relies.1);
      })
      (λ _. tt)
wake_next-Keeps (checked w) state permits releasing parked v = record {
  word = omega arith;
  parked = omega (arith, v.parked, v.relies.0);
  few = v.few;
  relies = λ pos. absurd (omega (arith, pos));
}

release_one-Keeps : (g : WaitGroup) → IsCounted g → Keeps (release_one g)
unfolding release_one
release_one-Keeps g v =
    if-Keeps (g.releasing == 0) waits
      (done (record g { permits = g.permits + 1; releasing = g.releasing - 1 })) (λ _. tt)
      (λ e. record {
        word = v.word;
        parked = let p = v.parked in ground (arith, e);
        few = v.few;
        relies = v.relies;
      })

add_alone-Keeps :
    (a : Adder) (delta state permits releasing parked : ℕ)
    → let g : WaitGroup = record {
      state = state;
      permits = permits;
      adder = a;
      releasing = releasing;
      parked = parked;
    } in
      IsCounted g → delta < 2 ^ 32 → Keeps (wait_group_add delta g)
unfolding wait_group_add
add_alone-Keeps nobody delta state permits releasing parked v b =
    add-Keeps delta state permits releasing parked v b
add_alone-Keeps (zeroed _) delta state permits releasing parked v b = tt
add_alone-Keeps (checked _) delta state permits releasing parked v b = tt

Step-IsCounted : {g h : WaitGroup} → IsCounted g → Step g h → IsCounted h
unfolding wake_waiters
Step-IsCounted {g} v (add delta h b e) =
    subst Keeps e (add_alone-Keeps g.adder delta g.state g.permits g.releasing g.parked v b)
Step-IsCounted {g} v (wake h e) =
    subst Keeps e (wake_next-Keeps g.adder g.state g.permits g.releasing g.parked v)
Step-IsCounted {g} v (release h e) = subst Keeps e (release_one-Keeps g v)
Step-IsCounted {g} v (wait b) = wait-IsCounted g v b
Step-IsCounted {g} v (leave h e) = subst Keeps e (wake_up-Keeps g v)

Reach-IsCounted : {g : WaitGroup} → Reach g → IsCounted g
Reach-IsCounted begin = record {
  word = omega arith;
  parked = refl;
  few = omega arith;
  relies = λ pos. absurd (omega (arith, pos));
}
Reach-IsCounted (then_step r st) = Step-IsCounted (Reach-IsCounted r) st

abbrev pub is_nobody : Adder → Bool
is_nobody nobody = true
is_nobody (zeroed _) = false
is_nobody (checked _) = false

woken_by_one :
    (a : Adder) (s : ℕ) → Relies a s → 0 < waiters s → counter s ≡ 0 → is_nobody a ≡ false
woken_by_one nobody s r pos z = absurd (omega (arith, r pos, z))
woken_by_one (zeroed _) s r pos z = refl
woken_by_one (checked _) s r pos z = refl

wake_next-safe : (a : Adder) (g : WaitGroup) → Relies a g.state → is_panic (wake_next a g) ≡ false
wake_next-safe nobody g r = refl
wake_next-safe (zeroed s) g r =
    let e : (g.state == s) ≡ true = let x = r.0 in ground arith in rw e refl
wake_next-safe (checked w) g r = refl

-- In every state that threads reach by calls of which no two in `wait_group_add` overlap between the
-- counter's coming to 0 and the reset of the state: each parked thread is counted in the state, or a
-- call of `semaphore_release` is still to come for it, or it has a permit; if a parked thread is counted
-- while the counter is 0, a thread in `wait_group_add` is about to reset the state and to wake it; and
-- that thread never finds the state changed.
pub all_waiters_woken :
    (g : WaitGroup)
    → Reach g
    → (g.parked ≡ waiters g.state + g.releasing + g.permits)
      × (0 < waiters g.state → counter g.state ≡ 0 → is_nobody g.adder ≡ false)
      × (is_panic (wake_waiters g) ≡ false)
unfolding wake_waiters
all_waiters_woken g r =
    let v = Reach-IsCounted r in
    (v.parked, woken_by_one g.adder g.state v.relies, wake_next-safe g.adder g v.relies)
