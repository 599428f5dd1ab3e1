-- ===== src/Sync/NotifyList/Notified.antt =====
-- No notification is missed, and each goes to the oldest ticket, also when the tickets wrap.
use pentagon.Prelude.{
  ℕ, ◌+◌, ◌%◌, ◌^◌, ◌<◌, ◌≤◌, ◌≡◌, refl, sym, subst, ap, ◌∙◌, arith, true, false, Bool-cases, inl,
  inr, List, [], ◌∷◌, ◌==◌, ltb, NotIn, Distinct, Distinct-append, Apart-single, add32,
}
use pentagon.Sync.NotifyList.{
  Waiter, less, notify_list_add, notify_list_wait, unlink_ticket, notify_list_notify_all,
  notify_list_notify_one,
}
use pentagon.Sync.NotifyList.Window.{
  less-older, Current, Current-snoc, Current-more, without, without-Distinct, Found,
  unlink_ticket-Current,
}
use pentagon.Sync.NotifyList.System.{
  System, waited, Step, add, wait, notify_all, notify_one, Reach, begin, then_step,
}

pub record IsTracked (s : System) : Type 0 where
  pub wait : s.list.wait ≡ s.taken % 2 ^ 32
  pub notify : s.list.notify ≡ s.notified % 2 ^ 32
  pub order : s.notified ≤ s.taken
  pub near : s.taken < s.notified + 2 ^ 31
  pub current : Current s.notified s.taken s.list.waiters s.parked
  pub distinct : Distinct s.parked

-- A ticket that does not count as older was not notified.
not_older :
    (s : System) (k : ℕ)
    → IsTracked s
    → less (k % 2 ^ 32) s.list.notify ≡ false
    → s.notified < k + 2 ^ 31
    → s.notified ≤ k
not_older s k v e near = elim (Bool-cases (ltb k s.notified)) [
  | inl old ↦
      let o : less (k % 2 ^ 32) s.list.notify ≡ true =
        subst (λ x. less (k % 2 ^ 32) x ≡ true) (sym v.notify)
          (less-older k s.notified (ground arith) near) in
      absurd (ground arith)
  | inr new ↦ ground arith
]

-- With every ticket notified nobody is parked.
Current-none : (n : ℕ) (ws : List Waiter) (ks : List ℕ) → Current n n ws ks → ws ≡ []
Current-none n [] ks c = refl
Current-none n (w ∷ ws) [] c = absurd (omega (arith, c))
Current-none n (w ∷ ws) (k ∷ ks) c = absurd (omega (arith, c.1, c.2))

wait-IsTracked :
    (s : System) (thread k : ℕ)
    → IsTracked s
    → k < s.taken
    → s.notified < k + 2 ^ 31
    → NotIn k s.parked
    → IsTracked (waited s thread k)
unfolding notify_list_wait
wait-IsTracked s thread k v lt near fresh = elim (Bool-cases (less (k % 2 ^ 32) s.list.notify)) [
  | inl e ↦ rw e v
  | inr e ↦ rw e (record {
    wait = v.wait;
    notify = v.notify;
    order = v.order;
    near = v.near;
    current =
        Current-snoc s.notified s.taken (record { thread = thread; ticket = k % 2 ^ 32 }) k
          s.list.waiters s.parked v.current refl (not_older s k v e near) lt;
    distinct =
        Distinct-append s.parked (k ∷ []) v.distinct (tt, tt) (Apart-single s.parked k fresh);
  })
]

all-IsTracked :
    (s : System)
    → IsTracked s
    → IsTracked
        (record s { list = (notify_list_notify_all s.list).1; notified = s.taken; parked = [] })
unfolding notify_list_notify_all
all-IsTracked s v = elim (Bool-cases (s.list.wait == s.list.notify)) [
  | inl e ↦
      let same : s.notified ≡ s.taken = ground (arith, v.wait, v.notify, v.order, v.near) in
      let none_left : s.list.waiters ≡ [] =
        Current-none s.taken s.list.waiters s.parked
          (subst (λ n. Current n s.taken s.list.waiters s.parked) same v.current) in
      rw e (record {
        wait = v.wait;
        notify = v.notify ∙ ap (λ n. n % 2 ^ 32) same;
        order = omega arith;
        near = omega arith;
        current = subst (λ ws. Current s.taken s.taken ws []) (sym none_left) tt;
        distinct = tt;
      })
  | inr e ↦ rw e (record {
    wait = v.wait;
    notify = v.wait;
    order = omega arith;
    near = omega arith;
    current = tt;
    distinct = tt;
  })
]

one-IsTracked :
    (s : System)
    → IsTracked s
    → s.notified < s.taken
    → IsTracked (record s {
      list = (notify_list_notify_one s.list).1;
      notified = s.notified + 1;
      parked = without s.notified s.parked;
    })
unfolding notify_list_notify_one
one-IsTracked s v lt =
    let e : (s.list.wait == s.list.notify) ≡ false = ground (arith, v.wait, v.notify, lt, v.near) in
    let u =
      unlink_ticket-Current s.notified s.taken s.list.waiters s.parked v.current v.distinct
        v.near in
    rw e (record {
      wait = v.wait;
      notify = ap (λ n. add32 n 1) v.notify ∙ omega arith;
      order = omega (arith, lt);
      near = omega (arith, v.near);
      current =
          subst
            (λ t.
              Current (s.notified + 1) s.taken (unlink_ticket t s.list.waiters).1
                (without s.notified s.parked))
            (sym v.notify) u.1;
      distinct = without-Distinct s.notified s.parked v.distinct;
    })

add-IsTracked :
    (s : System)
    → IsTracked s
    → s.taken + 1 < s.notified + 2 ^ 31
    → IsTracked (record s { list = (notify_list_add s.list).1; taken = s.taken + 1 })
unfolding notify_list_add
add-IsTracked s v b = record {
  wait = ap (λ n. add32 n 1) v.wait ∙ omega arith;
  notify = v.notify;
  order = omega (arith, v.order);
  near = b;
  current = Current-more s.notified s.taken s.list.waiters s.parked v.current;
  distinct = v.distinct;
}

Step-IsTracked : {s t : System} → IsTracked s → Step s t → IsTracked t
Step-IsTracked {s} v (add b) = add-IsTracked s v b
Step-IsTracked {s} v (wait thread k lt near fresh) = wait-IsTracked s thread k v lt near fresh
Step-IsTracked {s} v notify_all = all-IsTracked s v
Step-IsTracked {s} v (notify_one lt) = one-IsTracked s v lt

Reach-IsTracked : {s : System} → Reach s → IsTracked s
Reach-IsTracked begin = record {
  wait = refl;
  notify = refl;
  order = omega arith;
  near = omega arith;
  current = tt;
  distinct = tt;
}
Reach-IsTracked (then_step r st) = Step-IsTracked (Reach-IsTracked r) st

-- In every state that threads reach in any interleaving, wrap-around included: the parked waiters are
-- those with their numbers, each once, from the first number not notified on, so that nobody whose
-- ticket was notified stays parked; and if a ticket is not notified yet, `notify_list_notify_one`
-- takes out the waiter with the oldest such ticket, or none if that thread is not parked yet.
pub notify_one-Found :
    (s : System)
    → Reach s
    → Current s.notified s.taken s.list.waiters s.parked
      × Distinct s.parked
      × (s.notified < s.taken → Found s.notified (notify_list_notify_one s.list).0 s.parked)
unfolding notify_list_notify_one
notify_one-Found s r =
    let v = Reach-IsTracked r in
    let found : s.notified < s.taken → Found s.notified (notify_list_notify_one s.list).0 s.parked =
      λ lt.
        let e : (s.list.wait == s.list.notify) ≡ false =
          ground (arith, v.wait, v.notify, lt, v.near) in
        let u =
          unlink_ticket-Current s.notified s.taken s.list.waiters s.parked v.current v.distinct
            v.near in
        rw e (
          subst (λ t. Found s.notified (unlink_ticket t s.list.waiters).0 s.parked) (sym v.notify)
            u.0) in
    (v.current, v.distinct, found)
