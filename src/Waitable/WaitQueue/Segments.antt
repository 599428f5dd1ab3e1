-- ===== src/Waitable/WaitQueue/Segments.antt =====
-- Doubly linked segments: the entries of a list, linked both ways, between two pointers.
use pentagon.Prelude.{
  ◌≡◌, refl, sym, ap, ◌∙◌, ◌⊎◌, inl, inr, Option, some, List, [], ◌∷◌, ◌++◌, update, update-ne,
  update_self, NotIn, Apart,
}
use pentagon.Waitable.WaitQueue.{WaitingRef, Links}

-- The pointer to the first entry of a list, and to the last; for no entry the given pointer.
abbrev pub first_of : List WaitingRef → Option WaitingRef → Option WaitingRef
first_of [] e = e
first_of (x ∷ xs) e = some x

abbrev pub last_of : Option WaitingRef → List WaitingRef → Option WaitingRef
last_of p [] = p
last_of p (x ∷ xs) = last_of (some x) xs

-- Behind `p` and before `e` stand the entries of the list.
abbrev pub Segment :
    Links → Links → Option WaitingRef → List WaitingRef → Option WaitingRef → Type 0
Segment n b p [] e = Unit
Segment n b p (x ∷ xs) e = (b x ≡ p) × (n x ≡ first_of xs e) × Segment n b (some x) xs e

pub last_of-append :
    (p : Option WaitingRef) (xs ys : List WaitingRef)
    → last_of p (xs ++ ys) ≡ last_of (last_of p xs) ys
last_of-append p [] ys = refl
last_of-append p (x ∷ xs) ys = last_of-append (some x) xs ys

pub first_of-append :
    (xs ys : List WaitingRef) (e : Option WaitingRef)
    → first_of (xs ++ ys) e ≡ first_of xs (first_of ys e)
first_of-append [] ys e = refl
first_of-append (x ∷ xs) ys e = refl

module _ (n b : Links) where
  pub Segment-of_append :
      (p : Option WaitingRef) (xs ys : List WaitingRef) (e : Option WaitingRef)
      → Segment n b p (xs ++ ys) e
      → Segment n b p xs (first_of ys e) × Segment n b (last_of p xs) ys e
  Segment-of_append p [] ys e s = (tt, s)
  Segment-of_append p (x ∷ xs) ys e s =
      let (l, r) = Segment-of_append (some x) xs ys e s.2 in
      ((s.0, s.1 ∙ first_of-append xs ys e, l), r)

  pub Segment-append :
      (p : Option WaitingRef) (xs ys : List WaitingRef) (e : Option WaitingRef)
      → Segment n b p xs (first_of ys e)
      → Segment n b (last_of p xs) ys e
      → Segment n b p (xs ++ ys) e
  Segment-append p [] ys e l r = r
  Segment-append p (x ∷ xs) ys e l r =
      (l.0, l.1 ∙ sym (first_of-append xs ys e), Segment-append (some x) xs ys e l.2 r)

  -- Writes to an entry that is not in the list leave the segment.
  pub Segment-next :
      (a : WaitingRef) (v p : Option WaitingRef) (xs : List WaitingRef) (e : Option WaitingRef)
      → NotIn a xs
      → Segment n b p xs e
      → Segment (update n a v) b p xs e
  Segment-next a v p [] e h s = tt
  Segment-next a v p (x ∷ xs) e h s =
      (s.0, update-ne n a x v (λ f. h.0 (sym f)) ∙ s.1, Segment-next a v (some x) xs e h.1 s.2)

  pub Segment-prev :
      (a : WaitingRef) (v p : Option WaitingRef) (xs : List WaitingRef) (e : Option WaitingRef)
      → NotIn a xs
      → Segment n b p xs e
      → Segment n (update b a v) p xs e
  Segment-prev a v p [] e h s = tt
  Segment-prev a v p (x ∷ xs) e h s =
      (update-ne b a x v (λ f. h.0 (sym f)) ∙ s.0, s.1, Segment-prev a v (some x) xs e h.1 s.2)

-- A segment depends on the links of its entries only.
pub Segment-agree :
    (n b n' b' : Links) (p : Option WaitingRef) (ys xs : List WaitingRef) (e : Option WaitingRef)
    → ((a : WaitingRef) → NotIn a xs → (n' a ≡ n a) × (b' a ≡ b a))
    → Apart ys xs
    → Segment n b p ys e
    → Segment n' b' p ys e
Segment-agree n b n' b' p [] xs e same apart s = tt
Segment-agree n b n' b' p (y ∷ ys) xs e same apart s =
    let here = same y apart.0 in
    (here.1 ∙ s.0, here.0 ∙ s.1, Segment-agree n b n' b' (some y) ys xs e same apart.1 s.2)

-- The last entry is linked to another successor, the first one to another predecessor.
pub Segment-relast :
    (n b : Links) (p : Option WaitingRef) (zs : List WaitingRef) (z : WaitingRef)
    (e v : Option WaitingRef)
    → NotIn z zs
    → Segment n b p (zs ++ (z ∷ [])) e
    → Segment (update n z v) b p (zs ++ (z ∷ [])) v
Segment-relast n b p zs z e v h s =
    let (l, r) = Segment-of_append n b p zs (z ∷ []) e s in
    Segment-append (update n z v) b p zs (z ∷ []) v (Segment-next n b z v p zs (some z) h l)
      (r.0, update_self n z v, tt)

pub Segment-refirst :
    (n b : Links) (p : Option WaitingRef) (y : WaitingRef) (ys : List WaitingRef)
    (e v : Option WaitingRef)
    → NotIn y ys
    → Segment n b p (y ∷ ys) e
    → Segment n (update b y v) v (y ∷ ys) e
Segment-refirst n b p y ys e v h s =
    (update_self b y v, s.1, Segment-prev n b y v (some y) ys e h s.2)

pub split_last :
    (xs : List WaitingRef)
    → (xs ≡ []) ⊎ ((zs : List WaitingRef) × (z : WaitingRef) × (xs ≡ zs ++ (z ∷ [])))
split_last [] = inl refl
split_last (x ∷ xs) = inr (elim (split_last xs) [
  | inl e ↦ ([], x, ap (λ r. x ∷ r) e)
  | inr (zs, z, e) ↦ (x ∷ zs, z, ap (λ r. x ∷ r) e)
])
