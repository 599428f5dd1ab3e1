-- ===== src/Scheduler/RunQueue/Window.antt =====
-- The part of a run queue's array that is in use.
use pentagon.Prelude.{
  ℕ, zero, suc, ◌+◌, ◌%◌, ◌^◌, ◌<◌, ◌≡◌, refl, sym, ap, ap₂, List, [], ◌∷◌, ◌++◌, arith, update,
  update-ne, add32, length,
}
use pentagon.Scheduler.ThreadQueue.{Thread}
use pentagon.Scheduler.RunQueue.{run_queue_len, window}

module _ (q : ℕ → Thread) where
  pub length-window : (h n : ℕ) → length (window q h n) ≡ n
  unfolding window
  length-window h zero = refl
  length-window h (suc n) = ap suc (length-window (add32 h 1) n)

  -- A window is cut in two at any place.
  pub window-append :
      (h m k n g : ℕ)
      → n ≡ m + k
      → g ≡ add32 h m
      → h < 2 ^ 32
      → window q h n ≡ window q h m ++ window q g k
  unfolding window
  window-append h zero k n g e f b =
      let same : n ≡ k = omega arith in
      let here : g ≡ h = omega arith in ap₂ (window q) (sym here) same
  window-append h (suc m) k zero g e f b = absurd (omega arith)
  window-append h (suc m) k (suc n) g e f b =
      ap (λ r. q (h % run_queue_len) ∷ r)
        (window-append (add32 h 1) m k n g (omega arith) (omega arith) (omega arith))

  -- A write just behind the window extends it.
  pub window-update :
      (x h n i : ℕ)
      → n < run_queue_len
      → i ≡ (h + n) % run_queue_len
      → window (update q i x) h (suc n) ≡ window q h n ++ (x ∷ [])
  unfolding window
  window-update x h zero i b e = ap (λ y. y ∷ []) (ground arith)
  window-update x h (suc n) i b e =
      ap₂ ◌∷◌ (update-ne q i (h % run_queue_len) x (omega arith))
        (window-update x (add32 h 1) n i (omega arith) (omega arith))

  pub window-eq-nil : (h n : ℕ) → window q h n ≡ [] → n ≡ 0
  unfolding window
  window-eq-nil h zero e = refl
  window-eq-nil h (suc n) e = cc

  pub window-eq-cons :
      (h n : ℕ) {t : Thread} {ts : List Thread}
      → window q h n ≡ t ∷ ts
      → (m : ℕ) × (n ≡ suc m) × (q (h % run_queue_len) ≡ t) × (window q (add32 h 1) m ≡ ts)
  unfolding window
  window-eq-cons h zero e = cc
  window-eq-cons h (suc n) e = (n, refl, cc, cc)
