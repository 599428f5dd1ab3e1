-- ===== src/Thread/WaitingCache/Keep.antt =====
-- The loops that move entries between the two caches.
use pentagon.Prelude.{
  ℕ, zero, suc, ◌+◌, ◌≤◌, ◌≡◌, refl, sym, subst, arith, Option, none, some, List, [], ◌∷◌, length,
  take, drop, last?, NotIn, Distinct, Apart, Apart-symm, Apart-nil, update,
}
use pentagon.Scheduler.ThreadQueue.Refine.{Chain, Chain-update}
use pentagon.Thread.FreeThreads.Keep.{moved}
use pentagon.Thread.WaitingCache.{WaitingRef, WaitingCache, fill, link_last, first_of, take_out}

pub fill-moved :
    (n : ℕ) (c : WaitingCache) (gs : List WaitingRef)
    → Chain c.next c.global gs
    → Distinct gs
    → let m = moved n gs c.cache in let d = fill n c in Chain d.next d.global m.0 × (d.cache ≡ m.1)
unfolding fill
fill-moved zero c gs k d = (k, refl)
fill-moved (suc n) c [] k d =
    subst
      (λ h.
        let e = fill (suc n) (record c { global = h }) in
        Chain e.next e.global [] × (e.cache ≡ c.cache))
      (sym k) (refl, refl)
fill-moved (suc n) c (g ∷ gs) k d =
    let m = moved n gs (g ∷ c.cache) in
    subst
      (λ h.
        let e = fill (suc n) (record c { global = h }) in
        Chain e.next e.global m.0 × (e.cache ≡ m.1))
      (sym k.0)
      (fill-moved n (record { next = update c.next g none; cache = g ∷ c.cache; global = c.next g })
        gs (Chain-update c.next g none (c.next g) gs d.0 k.1) d.1)

-- The last of the entries, or the one before them.
abbrev pub last_from : Option WaitingRef → List WaitingRef → Option WaitingRef
last_from o [] = o
last_from o (x ∷ xs) = last_from (some x) xs

pub last_from-last? :
    (x : WaitingRef) (xs : List WaitingRef) → last_from (some x) xs ≡ last? (x ∷ xs)
last_from-last? x [] = refl
last_from-last? x (y ∷ ys) = last_from-last? y ys

abbrev pub IsOutside : Option WaitingRef → List WaitingRef → Type 0
IsOutside none gs = Unit
IsOutside (some x) gs = NotIn x gs

link_last-Chain :
    (first last : Option WaitingRef) (p : WaitingRef) (next : WaitingRef → Option WaitingRef)
    (h : Option WaitingRef) (gs : List WaitingRef)
    → IsOutside last gs
    → Chain next h gs
    → Chain (link_last first last p next) h gs
link_last-Chain none last p next h gs o k = k
link_last-Chain (some x) none p next h gs o k = k
link_last-Chain (some x) (some y) p next h gs o k = Chain-update next y (some p) h gs o k

pub take_out-Chain :
    (n : ℕ) (next : WaitingRef → Option WaitingRef) (xs : List WaitingRef)
    (first last h : Option WaitingRef) (gs : List WaitingRef)
    → IsOutside last gs
    → Apart xs gs
    → Chain next h gs
    → let r = take_out n next xs first last in
      Chain r.0 h gs × (r.1 ≡ drop n xs) × (r.2 ≡ last_from last (take n xs)) × IsOutside r.2 gs
unfolding take_out
take_out-Chain zero next xs first last h gs o a k = (k, refl, refl, o)
take_out-Chain (suc n) next [] first last h gs o a k = (k, refl, refl, o)
take_out-Chain (suc n) next (x ∷ xs) first last h gs o a k =
    take_out-Chain n (link_last first last x next) xs (first_of first x) (some x) h gs a.0 a.1
      (link_last-Chain first last x next h gs o k)

pub moved-Apart :
    (n : ℕ) (xs ys : List WaitingRef)
    → Distinct xs
    → Distinct ys
    → Apart xs ys
    → let m = moved n xs ys in Distinct m.0 × Distinct m.1 × Apart m.1 m.0
moved-Apart zero xs ys dx dy a = (dx, dy, Apart-symm xs ys a)
moved-Apart (suc n) [] ys dx dy a = (tt, dy, Apart-nil ys)
moved-Apart (suc n) (x ∷ xs) ys dx dy a =
    moved-Apart n xs (x ∷ ys) dx.1 (a.0, dy) (Apart-symm (x ∷ ys) xs (dx.0, Apart-symm xs ys a.1))

pub moved-few : (n : ℕ) (xs ys : List WaitingRef) → length (moved n xs ys).1 ≤ n + length ys
moved-few zero xs ys = omega arith
moved-few (suc n) [] ys = omega arith
moved-few (suc n) (x ∷ xs) ys = omega (arith, moved-few n xs (x ∷ ys))
