-- ===== src/Scheduler/Steal/Copy.antt =====
-- What the copy of a batch leaves in the array that it writes.
use pentagon.Prelude.{
  ℕ, zero, suc, ◌+◌, ◌-◌, ◌%◌, ◌≤◌, ◌<◌, ◌≡◌, refl, ap₂, ◌∙◌, ◌∷◌, arith, update, update_self,
  update-ne, add32,
}
use pentagon.Scheduler.ThreadQueue.{Thread}
use pentagon.Scheduler.RunQueue.{run_queue_len, window}
use pentagon.Scheduler.Steal.{copy}

-- How far the slot `i` stands behind the index `h`, going round.
abbrev behind : ℕ → ℕ → ℕ
behind h i = (i + run_queue_len - h % run_queue_len) % run_queue_len

copy-other :
    (q : ℕ → Thread) (h : ℕ) (b : ℕ → Thread) (bh n i : ℕ)
    → i < run_queue_len
    → n ≤ behind bh i
    → n < run_queue_len
    → copy q h b bh n i ≡ b i
unfolding copy
copy-other q h b bh zero i lt far le = refl
copy-other q h b bh (suc n) i lt far le =
    copy-other q (add32 h 1) (update b (bh % run_queue_len) (q (h % run_queue_len))) (add32 bh 1) n
      i lt (omega arith) (omega arith)
    ∙ update-ne b (bh % run_queue_len) i (q (h % run_queue_len)) (omega arith)

-- The copied threads are those of the source, in order.
pub window-copy :
    (q : ℕ → Thread) (h : ℕ) (b : ℕ → Thread) (bh n : ℕ)
    → n ≤ run_queue_len
    → window (copy q h b bh n) bh n ≡ window q h n
unfolding copy window
window-copy q h b bh zero le = refl
window-copy q h b bh (suc n) le =
    let b' = update b (bh % run_queue_len) (q (h % run_queue_len)) in
    ap₂ ◌∷◌
      (copy-other q (add32 h 1) b' (add32 bh 1) n (bh % run_queue_len) (omega arith) (omega arith)
          (omega arith)
        ∙ update_self b (bh % run_queue_len) (q (h % run_queue_len)))
      (window-copy q (add32 h 1) b' (add32 bh 1) n (omega arith))

-- A window that ends where the batch begins is left alone.
pub window-copy-other :
    (q : ℕ → Thread) (h : ℕ) (b : ℕ → Thread) (bh n g m : ℕ)
    → bh % run_queue_len ≡ (g + m) % run_queue_len
    → m + n ≤ run_queue_len
    → window (copy q h b bh n) g m ≡ window b g m
unfolding window
window-copy-other q h b bh n g zero e le = refl
window-copy-other q h b bh n g (suc m) e le =
    ap₂ ◌∷◌ (copy-other q h b bh n (g % run_queue_len) (omega arith) (omega arith) (omega arith))
      (window-copy-other q h b bh n (add32 g 1) m (omega arith) (omega arith))
