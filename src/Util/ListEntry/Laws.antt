-- ===== src/Util/ListEntry/Laws.antt =====
-- Each call does to the list what it says.
use pentagon.Prelude.{
  ◌≡◌, ◌≢◌, refl, sym, subst, ap, ◌∙◌, arith, true, false, Option, none, some, List, [], ◌∷◌, ◌++◌,
  ◌==◌, update, update_self, update-ne, NotIn, NotIn-append, Distinct-of_append, Distinct-append,
  Apart, Apart-symm, Apart-single, append-nil,
}
use pentagon.Util.ListEntry.{
  EntryRef, Entries, list_init, list_add_internal, list_add, list_add_tail, list_del, list_is_empty,
  list_pop,
}
use pentagon.Util.ListEntry.Ring.{
  Segment, Edited, Segment-elsewhere, last_of, prev-last_of, last_of-ne, Segment-retarget,
  Segment-split, Segment-join, IsList,
}

list_add_internal-Edited :
    (s : Entries) (p n new : EntryRef) → Edited s (list_add_internal s p n new) p n new
unfolding list_add_internal
list_add_internal-Edited s p n new = record {
  next = λ j a b. update-ne (update s.next new n) p j new a ∙ update-ne s.next new j n b;
  prev = λ j a b. update-ne (update s.prev n new) new j p b ∙ update-ne s.prev n j new a;
}

-- The four links round the new entry.
added :
    (s : Entries) (p n new : EntryRef)
    → p ≢ new
    → n ≢ new
    → let t = list_add_internal s p n new in
      ((t.next p ≡ new) × (t.prev new ≡ p)) × ((t.next new ≡ n) × (t.prev n ≡ new))
unfolding list_add_internal
added s p n new pn nn = (
  (update_self (update s.next new n) p new, update_self (update s.prev n new) new p),
  (
    update-ne (update s.next new n) p new new pn ∙ update_self s.next new n,
    update-ne (update s.prev n new) new n p (λ e. nn (sym e)) ∙ update_self s.prev n new,
  ),
)

-- A new entry comes first.
list_add-IsList :
    (s : Entries) (h new : EntryRef) (xs : List EntryRef)
    → IsList s h xs
    → NotIn new (h ∷ xs)
    → IsList (list_add s h new) h (new ∷ xs)
unfolding list_add
list_add-IsList s h new [] k f =
    subst (λ n. IsList (list_add_internal s h n new) h (new ∷ [])) (sym k.0.0)
      (let a = added s h h new f.0 f.0 in
        ((a.0.0, a.0.1, a.1), (((λ e. f.0 (sym e)), tt), (tt, tt))))
list_add-IsList s h new (x ∷ xs) k f =
    subst (λ n. IsList (list_add_internal s h n new) h (new ∷ x ∷ xs)) (sym k.0.0)
      (let a = added s h x new f.0 f.1.0 in
        let ends = NotIn-append x xs (h ∷ []) k.1.1.0 ((λ e. k.1.0.0 (sym e)), tt) in
        let new_ends = NotIn-append new xs (h ∷ []) f.1.1 (f.0, tt) in
        (
          (
            a.0.0,
            a.0.1,
            (
              a.1.0,
              a.1.1,
              Segment-elsewhere x xs h (list_add_internal-Edited s h x new) (k.1.0, f.1)
                  (ends, new_ends) k.0.2,
            ),
          ),
          (((λ e. f.0 (sym e)), k.1.0), (f.1, k.1.1)),
        ))

-- A new entry comes last.
list_add_tail-IsList :
    (s : Entries) (h new : EntryRef) (xs : List EntryRef)
    → IsList s h xs
    → NotIn new (h ∷ xs)
    → IsList (list_add_tail s h new) h (xs ++ (new ∷ []))
unfolding list_add_tail
list_add_tail-IsList s h new xs k f =
    let p = last_of h xs in
    let a = added s p h new (last_of-ne new h xs f) f.0 in
    let t = list_add_internal s p h new in
    let front : Segment t h xs new =
      Segment-retarget h xs h new (list_add_internal-Edited s p h new) k.1 f k.1.0 k.0 a.0 in
    subst (λ p. IsList (list_add_internal s p h new) h (xs ++ (new ∷ [])))
      (sym (prev-last_of s h xs h k.0))
      (
        Segment-join t h xs new [] h front a.1,
        Distinct-append (h ∷ xs) (new ∷ []) k.1 (tt, tt) (Apart-single (h ∷ xs) new f),
      )

-- What `list_del` writes, for the neighbours `p` and `n`.
abbrev unlinked : Entries → EntryRef → EntryRef → EntryRef → Entries
unlinked s p n x = record {
  next = update (update s.next p n) x 0xAAAAAAAAAAAAAAAA;
  prev = update (update s.prev n p) x 0xBBBBBBBBBBBBBBBB;
}

unlinked-Edited : (s : Entries) (p n x : EntryRef) → Edited s (unlinked s p n x) p n x
unlinked-Edited s p n x = record {
  next = λ j a b. update-ne (update s.next p n) x j 0xAAAAAAAAAAAAAAAA b ∙ update-ne s.next p j n a;
  prev = λ j a b. update-ne (update s.prev n p) x j 0xBBBBBBBBBBBBBBBB b ∙ update-ne s.prev n j p a;
}

joined :
    (s : Entries) (p n x : EntryRef)
    → x ≢ p
    → x ≢ n
    → let t = unlinked s p n x in (t.next p ≡ n) × (t.prev n ≡ p)
joined s p n x xp xn = (
  update-ne (update s.next p n) x p 0xAAAAAAAAAAAAAAAA xp ∙ update_self s.next p n,
  update-ne (update s.prev n p) x n 0xBBBBBBBBBBBBBBBB xn ∙ update_self s.prev n p,
)

last_of-NotIn : (a : EntryRef) (xs zs : List EntryRef) → Apart (a ∷ xs) zs → NotIn (last_of a xs) zs
last_of-NotIn a [] zs h = h.0
last_of-NotIn a (x ∷ xs) zs h = last_of-NotIn x xs zs h.1

-- `list_del` takes any entry out of its list, and the others stay in order, linked both ways.
pub list_del-IsList :
    (s : Entries) (h x : EntryRef) (xs ys : List EntryRef)
    → IsList s h (xs ++ (x ∷ ys))
    → IsList (list_del s x) h (xs ++ ys)
unfolding list_del
list_del-IsList s h x xs [] k =
    let p = last_of h xs in
    let (front, rest) = Segment-split s h xs x [] h k.0 in
    let parts = Distinct-of_append (h ∷ xs) (x ∷ []) k.1 in
    let out = (Apart-symm (h ∷ xs) (x ∷ []) parts.apart).0 in
    let xp : x ≢ p = λ e. last_of-ne x h xs out (sym e) in
    let done_ : IsList (unlinked s p h x) h (xs ++ []) =
      subst (IsList (unlinked s p h x) h) (sym (append-nil xs)) (
        Segment-retarget h xs x h (unlinked-Edited s p h x) parts.left out parts.left.0 front
            (joined s p h x xp (λ e. out.0 (sym e))),
        parts.left,
      ) in
    subst (λ p. IsList (unlinked s p (s.next x) x) h (xs ++ [])) (sym (prev-last_of s h xs x front))
      (subst (λ n. IsList (unlinked s p n x) h (xs ++ [])) (sym rest.0) done_)
list_del-IsList s h x xs (y ∷ ys) k =
    let p = last_of h xs in
    let (front, rest) = Segment-split s h xs x (y ∷ ys) h k.0 in
    let parts = Distinct-of_append (h ∷ xs) (x ∷ y ∷ ys) k.1 in
    let back = Apart-symm (h ∷ xs) (x ∷ y ∷ ys) parts.apart in
    let out = back.0 in
    let xp : x ≢ p = λ e. last_of-ne x h xs out (sym e) in
    let xy : x ≢ y = λ e. parts.right.0.0 (sym e) in
    let e = unlinked-Edited s p y x in
    let t = unlinked s p y x in
    let left : Segment t h xs y =
      Segment-retarget h xs x y e parts.left out back.1.0.1 front (joined s p y x xp xy) in
    let right : Segment t y ys h =
      Segment-elsewhere y ys h e ((last_of-NotIn h xs (x ∷ y ∷ ys) parts.apart).1, parts.right.0)
        (
          NotIn-append y ys (h ∷ []) parts.right.1.0 (back.1.0.0, tt),
          NotIn-append x ys (h ∷ []) parts.right.0.1 (out.0, tt),
        )
        rest.2 in
    let whole : IsList t h (xs ++ (y ∷ ys)) = (
      Segment-join t h xs y ys h left right,
      Distinct-append (h ∷ xs) (y ∷ ys) parts.left parts.right.1
          (Apart-symm (y ∷ ys) (h ∷ xs) back.1),
    ) in
    subst (λ p. IsList (unlinked s p (s.next x) x) h (xs ++ (y ∷ ys)))
      (sym (prev-last_of s h xs x front))
      (subst (λ n. IsList (unlinked s p n x) h (xs ++ (y ∷ ys))) (sym rest.0) whole)

last_of-snoc : (a : EntryRef) (xs : List EntryRef) (z : EntryRef) → last_of a (xs ++ (z ∷ [])) ≡ z
last_of-snoc a [] z = refl
last_of-snoc a (x ∷ xs) z = last_of-snoc x xs z

-- The list is not empty.
next-ne :
    (s : Entries) (h : EntryRef) (xs : List EntryRef) (z : EntryRef)
    → IsList s h (xs ++ (z ∷ []))
    → list_is_empty s h ≡ false
unfolding list_is_empty
next-ne s h [] z k = let e = k.0.0 in let n = k.1.0.0 in ground arith
next-ne s h (x ∷ xs) z k = let e = k.0.0 in let n = k.1.0.0 in ground arith

-- Of an empty list nothing is taken; else the last entry is taken out and returned.
list_pop-IsList :
    (s : Entries) (h : EntryRef)
    → (IsList s h [] → list_pop s h ≡ (none, s))
      × ((xs : List EntryRef) (z : EntryRef)
          → IsList s h (xs ++ (z ∷ []))
          → ((list_pop s h).0 ≡ some z) × IsList (list_pop s h).1 h xs)
unfolding list_pop list_is_empty
list_pop-IsList s h =
    let nothing : IsList s h [] → list_pop s h ≡ (none, s) =
      λ k. let e : (s.next h == h) ≡ true = let f = k.0.0 in ground arith in rw e refl in
    (
      nothing,
      λ xs z k.
          let e = next-ne s h xs z k in
          let last : s.prev h ≡ z = prev-last_of s h (xs ++ (z ∷ [])) h k.0 ∙ last_of-snoc h xs z in
          let gone : IsList (list_del s z) h xs =
            subst (IsList (list_del s z) h) (append-nil xs) (list_del-IsList s h z xs [] k) in
          rw e (ap some last, subst (λ x. IsList (list_del s x) h xs) (sym last) gone),
    )

-- `list_init` makes an empty list. An entry that is not in a list joins it in front by `list_add` and
-- at the end by `list_add_tail`; the others stay in order, linked both ways.
pub adds-IsList :
    (s : Entries) (h new : EntryRef) (xs : List EntryRef)
    → IsList s h xs
    → NotIn new (h ∷ xs)
    → IsList (list_init s h) h []
      × IsList (list_add s h new) h (new ∷ xs)
      × IsList (list_add_tail s h new) h (xs ++ (new ∷ []))
unfolding list_init
adds-IsList s h new xs k f = (
  ((update_self s.next h h, update_self s.prev h h), (tt, tt)),
  list_add-IsList s h new xs k f,
  list_add_tail-IsList s h new xs k f,
)

-- The entries but the last one.
abbrev pub init_of : EntryRef → List EntryRef → List EntryRef
init_of x [] = []
init_of x (y ∷ ys) = x ∷ init_of y ys

init_of-last_of : (x : EntryRef) (xs : List EntryRef) → init_of x xs ++ (last_of x xs ∷ []) ≡ x ∷ xs
init_of-last_of x [] = refl
init_of-last_of x (y ∷ ys) = ap (λ zs. x ∷ zs) (init_of-last_of y ys)

abbrev pub Popped : Entries → EntryRef → List EntryRef → Option EntryRef × Entries → Type 0
Popped s h [] r = r ≡ (none, s)
Popped s h (x ∷ xs) r = (r.0 ≡ some (last_of x xs)) × IsList r.1 h (init_of x xs)

-- `list_pop` takes nothing from an empty list, and else the last entry, which it returns; the others
-- stay in order, linked both ways.
pub list_pop-Popped :
    (s : Entries) (h : EntryRef) (xs : List EntryRef) → IsList s h xs → Popped s h xs (list_pop s h)
list_pop-Popped s h [] k = (list_pop-IsList s h).0 k
list_pop-Popped s h (x ∷ xs) k =
    (list_pop-IsList s h).1 (init_of x xs) (last_of x xs)
      (subst (IsList s h) (sym (init_of-last_of x xs)) k)
