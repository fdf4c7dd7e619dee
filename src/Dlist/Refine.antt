-- ===== src/Dlist/Refine.antt =====
-- The operations of libs/list.h as operations on the sequence that a list holds.
use oscmp.Base.{
  ℕ, ◌≡◌, ◌≢◌, refl, ◌↔◌, true, List, [], ◌∷◌, ◌++◌, arith, update, ==_iff, Fresh, Distinct,
  Fresh-split,
}
use oscmp.Dlist.Defs.{
  Links, list_init, list_add_between, list_add_after, list_add_before, list_del_between, list_del,
  list_empty,
}
use oscmp.Dlist.Chains.{
  Chain, IsList, last_or, first_or, Chain-next_frame, Chain-prev_frame, Chain-append, Chain-split,
  last_or-ne, first_or-ne, Chain-cut, Distinct-Cut, Cut-insert, Cut-remove, Cut-first,
}

-- `list_init` makes a list that holds nothing.
pub list_init-IsList : (s : Links) (h : ℕ) → IsList (list_init s h) h []
unfolding list_init
list_init-IsList s h = ground arith

insert_front :
    (s : Links) (a : ℕ) (xs : List ℕ) (n e p : ℕ)
    → p ≡ last_or a xs
    → Fresh e (a ∷ xs)
    → Fresh n xs
    → Distinct (a ∷ xs)
    → Chain s a xs n
    → Chain (list_add_between s e p n) a xs e
unfolding list_add_between
insert_front s a [] n e p q fe fn d c = ground arith
insert_front s a (x ∷ xs) n e p q fe fn d c = (
  ground (arith, last_or-ne x xs a d.0),
  ground arith,
  insert_front s x xs n e p q fe.1 fn.1 d.1 c.2,
)

insert_back :
    (s : Links) (p : ℕ) (ys : List ℕ) (n b e : ℕ)
    → n ≡ first_or ys b
    → e ≢ b
    → Fresh b ys
    → Fresh e ys
    → Fresh p ys
    → Distinct ys
    → Chain s p ys b
    → Chain (list_add_between s e p n) e ys b
unfolding list_add_between
insert_back s p [] n b e q eb fb fe fp d c = ground arith
insert_back s p (y ∷ ys) n b e q eb fb fe fp d c = (ground arith, ground arith, frame)
  where
    nb : n ≢ b
    nb = ground arith

    s₁ : Links
    s₁ = record s { prev = update s.prev n e }

    s₂ : Links
    s₂ = record s₁ { prev = update s₁.prev e p }

    s₃ : Links
    s₃ = record s₂ { next = update s₂.next p e }

    frame : Chain (record s₃ { next = update s₃.next e n }) y ys b
    frame = Chain-next_frame s₃ y ys b e n fe (
        Chain-next_frame s₂ y ys b p e fp (
          Chain-prev_frame s₁ y ys b e p fe.1 eb (Chain-prev_frame s y ys b n e (rw q d.0) nb c.2)))

new_links :
    (s : Links) (e p n : ℕ)
    → e ≢ p
    → e ≢ n
    → ((list_add_between s e p n).next p ≡ e) × ((list_add_between s e p n).prev e ≡ p)
unfolding list_add_between
new_links s e p n h k = ground arith

-- Between the entries on the two sides of a cut goes one new entry.
insert_cut :
    (s : Links) (h : ℕ) (xs ys : List ℕ) (e : ℕ)
    → IsList s h (xs ++ ys)
    → Fresh e (h ∷ (xs ++ ys))
    → IsList (list_add_between s e (last_or h xs) (first_or ys h)) h (xs ++ (e ∷ ys))
insert_cut s h xs ys e l f =
    let c = Distinct-Cut h xs ys l.distinct in
    let (fx, fy) = Fresh-split e xs ys f.1 in
    let (u, v) = Chain-split s h xs ys h l.chain in
    let p = last_or h xs in
    let n = first_or ys h in
    let (np, pe) = new_links s e p n (last_or-ne h xs e (f.0, fx)) (first_or-ne h ys e (f.0, fy)) in
    record {
      chain =
          Chain-append _ h xs (e ∷ ys) h
            (insert_front s h xs n e p refl (f.0, fx) c.first_off c.left u)
            (np, pe, insert_back s p ys n h e refl f.0 c.head_off fy c.last_off c.right v);
      distinct = Cut-insert h e xs ys c (f.0, fx) fy;
    }

-- `list_add_after` an entry of a list, or after its sentinel, puts a new entry right behind it.
pub list_add_after-IsList :
    (s : Links) (h : ℕ) (xs ys : List ℕ) (e : ℕ)
    → IsList s h (xs ++ ys)
    → Fresh e (h ∷ (xs ++ ys))
    → IsList (list_add_after s (last_or h xs) e) h (xs ++ (e ∷ ys))
unfolding list_add_after
list_add_after-IsList s h xs ys e l f =
    rw ((Chain-cut s h xs ys h l.chain).0) (insert_cut s h xs ys e l f)

-- `list_add_before` an entry of a list, or before its sentinel, puts a new entry right before it.
pub list_add_before-IsList :
    (s : Links) (h : ℕ) (xs ys : List ℕ) (e : ℕ)
    → IsList s h (xs ++ ys)
    → Fresh e (h ∷ (xs ++ ys))
    → IsList (list_add_before s (first_or ys h) e) h (xs ++ (e ∷ ys))
unfolding list_add_before
list_add_before-IsList s h xs ys e l f =
    rw ((Chain-cut s h xs ys h l.chain).1) (insert_cut s h xs ys e l f)

delete_front :
    (s : Links) (a : ℕ) (xs : List ℕ) (n e p : ℕ)
    → p ≡ last_or a xs
    → Fresh n xs
    → Distinct (a ∷ xs)
    → Chain s a xs e
    → Chain (list_del_between s p n) a xs n
unfolding list_del_between
delete_front s a [] n e p q fn d c = ground arith
delete_front s a (x ∷ xs) n e p q fn d c =
    (ground (arith, last_or-ne x xs a d.0), ground arith, delete_front s x xs n e p q fn.1 d.1 c.2)

delete_back :
    (s : Links) (p : ℕ) (ys : List ℕ) (n b e : ℕ)
    → n ≡ first_or ys b
    → Fresh b ys
    → Fresh p ys
    → Distinct ys
    → Chain s e ys b
    → Chain (list_del_between s p n) p ys b
unfolding list_del_between
delete_back s p [] n b e q fb fp d c = ground arith
delete_back s p (y ∷ ys) n b e q fb fp d c = (
  ground arith,
  ground arith,
  Chain-next_frame (record s { prev = update s.prev n p }) y ys b p n fp
      (Chain-prev_frame s y ys b n p (rw q d.0) (ground arith) c.2),
)

-- `list_del` of an entry takes out that entry and leaves the others in order.
pub list_del-IsList :
    (s : Links) (h : ℕ) (xs ys : List ℕ) (e : ℕ)
    → IsList s h (xs ++ (e ∷ ys))
    → IsList (list_del s e) h (xs ++ ys)
unfolding list_del
list_del-IsList s h xs ys e l =
    let c = Distinct-Cut h xs (e ∷ ys) l.distinct in
    let (u, v) = Chain-split s h xs (e ∷ ys) h l.chain in
    let (a, b) = Chain-split s e [] ys h v.2 in
    rw (v.1, a.0)
      (record {
        chain =
            Chain-append _ h xs ys h
              (delete_front s h xs (first_or ys h) e (last_or h xs) refl (Cut-first h e xs ys c)
                c.left u)
              (delete_back s (last_or h xs) ys (first_or ys h) h e refl c.head_off.1 c.last_off.1
                c.right.1 v.2);
        distinct = Cut-remove h e xs ys c;
      })

-- `list_empty` tells whether the list holds nothing.
pub list_empty_iff :
    (s : Links) (h : ℕ) (xs : List ℕ) → IsList s h xs → (list_empty s h ≡ true) ↔ (xs ≡ [])
unfolding list_empty
list_empty_iff s h [] l = (λ _. refl, λ _. (==_iff _ _).1 l.chain.0)
list_empty_iff s h (x ∷ xs) l = (λ q. ground arith, λ q. cc)
