-- ===== src/Util/ListEntry/Ring.antt =====
-- The entries of a list in order, from the head round to it again.
use pentagon.Prelude.{◌≡◌, ◌≢◌, sym, ◌∙◌, List, [], ◌∷◌, ◌++◌, NotIn, Distinct}
use pentagon.Util.ListEntry.{EntryRef, Entries}

-- The entries lead from `a` through the list to `b`, and back.
abbrev pub Segment : Entries → EntryRef → List EntryRef → EntryRef → Type 0
Segment s a [] b = (s.next a ≡ b) × (s.prev b ≡ a)
Segment s a (x ∷ xs) b = (s.next a ≡ x) × (s.prev x ≡ a) × Segment s x xs b

-- `next` was written only at `p` and `q`, and `prev` only at `n` and `q`.
pub record Edited (s t : Entries) (p n q : EntryRef) : Type 0 where
  pub next : (j : EntryRef) → p ≢ j → q ≢ j → t.next j ≡ s.next j
  pub prev : (j : EntryRef) → n ≢ j → q ≢ j → t.prev j ≡ s.prev j

apart_from : (a x : EntryRef) (xs : List EntryRef) → NotIn a (x ∷ xs) → a ≢ x
apart_from a x xs h e = h.0 (sym e)

-- Writes elsewhere leave the segment.
pub Segment-elsewhere :
    {s t : Entries} {p n q : EntryRef} (a : EntryRef) (xs : List EntryRef) (b : EntryRef)
    → Edited s t p n q
    → NotIn p (a ∷ xs) × NotIn q (a ∷ xs)
    → NotIn n (xs ++ (b ∷ [])) × NotIn q (xs ++ (b ∷ []))
    → Segment s a xs b
    → Segment t a xs b
Segment-elsewhere {p} {n} {q} a [] b e hp hn k = (
  e.next a (apart_from p a [] hp.0) (apart_from q a [] hp.1) ∙ k.0,
  e.prev b (apart_from n b [] hn.0) (apart_from q b [] hn.1) ∙ k.1,
)
Segment-elsewhere {p} {n} {q} a (x ∷ xs) b e hp hn k = (
  e.next a (λ f. hp.0.0 (sym f)) (λ f. hp.1.0 (sym f)) ∙ k.0,
  e.prev x (λ f. hn.0.0 (sym f)) (λ f. hn.1.0 (sym f)) ∙ k.1,
  Segment-elsewhere x xs b e (hp.0.1, hp.1.1) (hn.0.1, hn.1.1) k.2,
)

abbrev pub last_of : EntryRef → List EntryRef → EntryRef
last_of a [] = a
last_of a (x ∷ xs) = last_of x xs

pub prev-last_of :
    (s : Entries) (a : EntryRef) (xs : List EntryRef) (b : EntryRef)
    → Segment s a xs b
    → s.prev b ≡ last_of a xs
prev-last_of s a [] b k = k.1
prev-last_of s a (x ∷ xs) b k = prev-last_of s x xs b k.2

pub last_of-ne : (a x : EntryRef) (xs : List EntryRef) → NotIn a (x ∷ xs) → last_of x xs ≢ a
last_of-ne a x [] h = h.0
last_of-ne a x (y ∷ ys) h = last_of-ne a y ys h.1

-- The last entry is linked to another end.
pub Segment-retarget :
    {s t : Entries} {n q : EntryRef} (a : EntryRef) (xs : List EntryRef) (b c : EntryRef)
    → Edited s t (last_of a xs) n q
    → Distinct (a ∷ xs)
    → NotIn q (a ∷ xs)
    → NotIn n xs
    → Segment s a xs b
    → (t.next (last_of a xs) ≡ c) × (t.prev c ≡ last_of a xs)
    → Segment t a xs c
Segment-retarget a [] b c e d hq hn k l = l
Segment-retarget a (x ∷ xs) b c e d hq hn k l = (
  e.next a (last_of-ne a x xs d.0) (λ f. hq.0 (sym f)) ∙ k.0,
  e.prev x (λ f. hn.0 (sym f)) (λ f. hq.1.0 (sym f)) ∙ k.1,
  Segment-retarget x xs b c e d.1 hq.1 hn.1 k.2 l,
)

-- Segments are put together at an entry.
pub Segment-split :
    (s : Entries) (a : EntryRef) (xs : List EntryRef) (x : EntryRef) (ys : List EntryRef)
    (b : EntryRef)
    → Segment s a (xs ++ (x ∷ ys)) b
    → Segment s a xs x × Segment s x ys b
Segment-split s a [] x ys b k = ((k.0, k.1), k.2)
Segment-split s a (y ∷ xs) x ys b k =
    let r = Segment-split s y xs x ys b k.2 in ((k.0, k.1, r.0), r.1)

pub Segment-join :
    (s : Entries) (a : EntryRef) (xs : List EntryRef) (x : EntryRef) (ys : List EntryRef)
    (b : EntryRef)
    → Segment s a xs x
    → Segment s x ys b
    → Segment s a (xs ++ (x ∷ ys)) b
Segment-join s a [] x ys b j k = (j.0, j.1, k)
Segment-join s a (y ∷ xs) x ys b j k = (j.0, j.1, Segment-join s y xs x ys b j.2 k)

-- The list with this head.
abbrev pub IsList : Entries → EntryRef → List EntryRef → Type 0
IsList s h xs = Segment s h xs h × Distinct (h ∷ xs)
