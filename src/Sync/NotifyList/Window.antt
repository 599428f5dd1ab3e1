-- ===== src/Sync/NotifyList/Window.antt =====
-- Tickets without wrap-around, and what the scan for one does.
use pentagon.Prelude.{
  ℕ, suc, ◌+◌, ◌%◌, ◌^◌, ◌<◌, ◌≤◌, ◌≡◌, ◌≢◌, arith, true, false, Bool-cases, inl, inr, Option, none,
  some, List, [], ◌∷◌, ◌++◌, ◌==◌, if◌then◌else◌, NotIn, Distinct, ap, ◌∙◌,
}
use pentagon.Sync.NotifyList.{Waiter, less, unlink_ticket}

-- The comparison of two tickets fewer than 2 ^ 31 apart is that of their numbers.
pub less-older : (k n : ℕ) → k < n → n < k + 2 ^ 31 → less (k % 2 ^ 32) (n % 2 ^ 32) ≡ true
unfolding less
less-older k n lt near = ground arith

pub less-newer : (k n : ℕ) → n ≤ k → k < n + 2 ^ 31 → less (k % 2 ^ 32) (n % 2 ^ 32) ≡ false
unfolding less
less-newer k n le near = ground arith

pub same_ticket : (k n : ℕ) → n ≤ k → k < n + 2 ^ 31 → k % 2 ^ 32 ≡ n % 2 ^ 32 → k ≡ n
same_ticket k n le near e = omega arith

-- The numbers of the parked waiters: none was notified, and all were handed out.
abbrev pub Current : ℕ → ℕ → List Waiter → List ℕ → Type 0
Current n top [] [] = Unit
Current n top [] (k ∷ ks) = suc k ≡ 0
Current n top (w ∷ ws) [] = suc w.ticket ≡ 0
Current n top (w ∷ ws) (k ∷ ks) =
    (w.ticket ≡ k % 2 ^ 32) × (n ≤ k) × (k < top) × Current n top ws ks

pub Current-snoc :
    (n top : ℕ) (w : Waiter) (k : ℕ) (ws : List Waiter) (ks : List ℕ)
    → Current n top ws ks
    → w.ticket ≡ k % 2 ^ 32
    → n ≤ k
    → k < top
    → Current n top (ws ++ (w ∷ [])) (ks ++ (k ∷ []))
Current-snoc n top w k [] [] c t a b = (t, a, b, tt)
Current-snoc n top w k [] (j ∷ ks) c t a b = absurd (omega (arith, c))
Current-snoc n top w k (v ∷ ws) [] c t a b = absurd (omega (arith, c))
Current-snoc n top w k (v ∷ ws) (j ∷ ks) c t a b =
    (c.0, c.1, c.2, Current-snoc n top w k ws ks c.3 t a b)

-- More tickets are handed out.
pub Current-more :
    (n top : ℕ) (ws : List Waiter) (ks : List ℕ) → Current n top ws ks → Current n (top + 1) ws ks
Current-more n top [] [] c = c
Current-more n top [] (k ∷ ks) c = c
Current-more n top (w ∷ ws) [] c = c
Current-more n top (w ∷ ws) (k ∷ ks) c =
    (c.0, c.1, omega (arith, c.2), Current-more n top ws ks c.3)

-- The next number is notified, and not among the numbers.
pub Current-next :
    (n top : ℕ) (ws : List Waiter) (ks : List ℕ)
    → Current n top ws ks
    → NotIn n ks
    → Current (n + 1) top ws ks
Current-next n top [] [] c h = c
Current-next n top [] (k ∷ ks) c h = c
Current-next n top (w ∷ ws) [] c h = c
Current-next n top (w ∷ ws) (k ∷ ks) c h =
    (c.0, omega (arith, c.1, h.0), c.2, Current-next n top ws ks c.3 h.1)

-- The numbers without this one.
abbrev pub without : ℕ → List ℕ → List ℕ
without n [] = []
without n (k ∷ ks) = let rest = without n ks in if k == n then ks else k ∷ rest

pub without-NotIn : (j n : ℕ) (ks : List ℕ) → NotIn j ks → NotIn j (without n ks)
without-NotIn j n [] h = tt
without-NotIn j n (k ∷ ks) h = elim (Bool-cases (k == n)) [
  | inl e ↦ rw e (h.1)
  | inr e ↦ rw e (h.0, without-NotIn j n ks h.1)
]

pub without-Distinct : (n : ℕ) (ks : List ℕ) → Distinct ks → Distinct (without n ks)
without-Distinct n [] d = tt
without-Distinct n (k ∷ ks) d = elim (Bool-cases (k == n)) [
  | inl e ↦ rw e (d.1)
  | inr e ↦ rw e (without-NotIn k n ks d.0, without-Distinct n ks d.1)
]

-- What the scan finds: the waiter with the number, or none if no waiter has it.
abbrev pub Found : ℕ → Option Waiter → List ℕ → Type 0
Found n none ks = NotIn n ks
Found n (some w) ks = w.ticket ≡ n % 2 ^ 32

Found-cons :
    (n : ℕ) (o : Option Waiter) (k : ℕ) (ks : List ℕ) → k ≢ n → Found n o ks → Found n o (k ∷ ks)
Found-cons n none k ks ne f = (ne, f)
Found-cons n (some w) k ks ne f = f

-- The scan takes out the waiter with the next number, and leaves the others in order.
pub unlink_ticket-Current :
    (n top : ℕ) (ws : List Waiter) (ks : List ℕ)
    → Current n top ws ks
    → Distinct ks
    → top < n + 2 ^ 31
    → let r = unlink_ticket (n % 2 ^ 32) ws in
      Found n r.0 ks × Current (n + 1) top r.1 (without n ks)
unfolding unlink_ticket
unlink_ticket-Current n top [] [] c d near = (tt, tt)
unlink_ticket-Current n top [] (k ∷ ks) c d near = absurd (omega (arith, c))
unlink_ticket-Current n top (w ∷ ws) [] c d near = absurd (omega (arith, c))
unlink_ticket-Current n top (w ∷ ws) (k ∷ ks) c d near =
    elim (Bool-cases (w.ticket == n % 2 ^ 32)) [
      | inl e ↦
          let same : k ≡ n = same_ticket k n c.1 (omega (arith, c.2, near)) (ground (arith, c.0)) in
          let t : (k == n) ≡ true = ground arith in
          rw (e, t) (ground arith, Current-next n top ws ks c.3 (rw same at d.0))
      | inr e ↦
          let t : (k == n) ≡ false = elim (Bool-cases (k == n)) [
            | inl same ↦
                let f : k ≡ n = ground arith in
                let g : w.ticket ≡ n % 2 ^ 32 = c.0 ∙ ap (λ x. x % 2 ^ 32) f in
                absurd (ground arith)
            | inr ne ↦ ne
          ] in
          let ne : k ≢ n = ground arith in
          let ih = unlink_ticket-Current n top ws ks c.3 d.1 near in
          rw (e, t)
            (
              Found-cons n (unlink_ticket (n % 2 ^ 32) ws).0 k ks ne ih.0,
              (c.0, omega (arith, c.1, ne), c.2, ih.1),
            )
    ]
