-- ===== src/Dlist/Chains.antt =====
-- What a list of libs/list.h holds: the entries that its pointers run through, in both directions.
use oscmp.Base.{
  ℕ, ◌≡◌, ◌≢◌, ◌∙◌, List, [], ◌∷◌, ◌++◌, arith, update, Fresh, Distinct, Apart, Distinct-split,
  Distinct-append, Apart-cons, Apart-head, Apart-tail,
}
use oscmp.Dlist.Defs.{Links}

-- Both pointers lead from `a` through `xs` to `b`.
abbrev pub Chain : Links → ℕ → List ℕ → ℕ → Type 0
Chain s a [] b = (s.next a ≡ b) × (s.prev b ≡ a)
Chain s a (x ∷ xs) b = (s.next a ≡ x) × (s.prev x ≡ a) × Chain s x xs b

-- The list with sentinel `h` holds the entries `xs`, in order, each once.
pub record IsList (s : Links) (h : ℕ) (xs : List ℕ) : Type 0 where
  pub chain : Chain s h xs h
  pub distinct : Distinct (h ∷ xs)

-- The `next` pointers alone lead from `a` through `xs` to `b`.
abbrev pub Forward : (ℕ → ℕ) → ℕ → List ℕ → ℕ → Type 0
Forward next a [] b = next a ≡ b
Forward next a (x ∷ xs) b = (next a ≡ x) × Forward next x xs b

pub Chain-Forward :
    (s : Links) (a : ℕ) (xs : List ℕ) (b : ℕ) → Chain s a xs b → Forward s.next a xs b
Chain-Forward s a [] b c = c.0
Chain-Forward s a (x ∷ xs) b c = (c.0, Chain-Forward s x xs b c.2)

pub Forward-same :
    (f g : ℕ → ℕ) (a : ℕ) (xs : List ℕ) (b : ℕ)
    → ((i : ℕ) → g i ≡ f i)
    → Forward f a xs b
    → Forward g a xs b
Forward-same f g a [] b h c = h a ∙ c
Forward-same f g a (x ∷ xs) b h c = (h a ∙ c.0, Forward-same f g x xs b h c.1)

pub Forward-last :
    (next : ℕ → ℕ) (a : ℕ) (xs : List ℕ) (e : ℕ) → Forward next a (xs ++ (e ∷ [])) 0 → next e ≡ 0
Forward-last next a [] e f = f.1
Forward-last next a (x ∷ xs) e f = Forward-last next x xs e f.1

-- The last entry of `a ∷ xs`, and the first of `ys` before `b`.
abbrev pub last_or : ℕ → List ℕ → ℕ
last_or a [] = a
last_or a (x ∷ xs) = last_or x xs

abbrev pub first_or : List ℕ → ℕ → ℕ
first_or [] b = b
first_or (y ∷ ys) b = y

-- A write of pointers off the chain leaves it.
pub Chain-next_frame :
    (s : Links) (a : ℕ) (xs : List ℕ) (b i v : ℕ)
    → Fresh i (a ∷ xs)
    → Chain s a xs b
    → Chain (record s { next = update s.next i v }) a xs b
Chain-next_frame s a [] b i v f c = ground arith
Chain-next_frame s a (x ∷ xs) b i v f c = (ground arith, c.1, Chain-next_frame s x xs b i v f.1 c.2)

pub Chain-prev_frame :
    (s : Links) (a : ℕ) (xs : List ℕ) (b i v : ℕ)
    → Fresh i xs
    → i ≢ b
    → Chain s a xs b
    → Chain (record s { prev = update s.prev i v }) a xs b
Chain-prev_frame s a [] b i v f g c = ground arith
Chain-prev_frame s a (x ∷ xs) b i v f g c =
    (c.0, ground arith, Chain-prev_frame s x xs b i v f.1 g c.2)

-- Two chains that meet make one, and a chain is cut at any place.
pub Chain-append :
    (s : Links) (a : ℕ) (xs : List ℕ) (ys : List ℕ) (b : ℕ)
    → Chain s a xs (first_or ys b)
    → Chain s (last_or a xs) ys b
    → Chain s a (xs ++ ys) b
Chain-append s a [] ys b c d = d
Chain-append s a (x ∷ xs) ys b c d = (c.0, c.1, Chain-append s x xs ys b c.2 d)

Chain-first :
    (s : Links) (a : ℕ) (ys : List ℕ) (b : ℕ) → Chain s a ys b → Chain s a [] (first_or ys b)
Chain-first s a [] b c = c
Chain-first s a (y ∷ ys) b c = (c.0, c.1)

pub Chain-split :
    (s : Links) (a : ℕ) (xs : List ℕ) (ys : List ℕ) (b : ℕ)
    → Chain s a (xs ++ ys) b
    → Chain s a xs (first_or ys b) × Chain s (last_or a xs) ys b
Chain-split s a [] ys b c = (Chain-first s a ys b c, c)
Chain-split s a (x ∷ xs) ys b c = let (d, e) = Chain-split s x xs ys b c.2 in ((c.0, c.1, d), e)

-- The two pointers at a cut.
pub Chain-cut :
    (s : Links) (a : ℕ) (xs : List ℕ) (ys : List ℕ) (b : ℕ)
    → Chain s a (xs ++ ys) b
    → (s.next (last_or a xs) ≡ first_or ys b) × (s.prev (first_or ys b) ≡ last_or a xs)
Chain-cut s a xs ys b c = Chain-first s (last_or a xs) ys b (Chain-split s a xs ys b c).1

pub Chain-last :
    (s : Links) (a : ℕ) (xs : List ℕ) (b : ℕ) → Chain s a xs b → s.next (last_or a xs) ≡ b
Chain-last s a [] b c = c.0
Chain-last s a (x ∷ xs) b c = Chain-last s x xs b c.2

last_or-Fresh : (a : ℕ) (xs ys : List ℕ) → Apart (a ∷ xs) ys → Fresh (last_or a xs) ys
last_or-Fresh a [] ys p = p.0
last_or-Fresh a (x ∷ xs) ys p = last_or-Fresh x xs ys p.1

pub last_or-ne : (a : ℕ) (xs : List ℕ) (n : ℕ) → Fresh n (a ∷ xs) → n ≢ last_or a xs
last_or-ne a [] n f = f.0
last_or-ne a (x ∷ xs) n f = last_or-ne x xs n f.1

pub first_or-ne : (h : ℕ) (ys : List ℕ) (n : ℕ) → Fresh n (h ∷ ys) → n ≢ first_or ys h
first_or-ne h [] n f = f.0
first_or-ne h (y ∷ ys) n f = f.1.0

-- What the entries around a cut of a list have in common.
pub record Cut (h : ℕ) (xs ys : List ℕ) : Type 0 where
  pub left : Distinct (h ∷ xs)
  pub right : Distinct ys
  pub apart : Apart xs ys
  pub head_off : Fresh h ys
  pub last_off : Fresh (last_or h xs) ys
  pub first_off : Fresh (first_or ys h) xs

first_or-Fresh : (h : ℕ) (xs ys : List ℕ) → Fresh h xs → Apart xs ys → Fresh (first_or ys h) xs
first_or-Fresh h xs [] f a = f
first_or-Fresh h xs (y ∷ ys) f a = Apart-head xs y ys a

pub Distinct-Cut : (h : ℕ) (xs ys : List ℕ) → Distinct (h ∷ (xs ++ ys)) → Cut h xs ys
Distinct-Cut h xs ys d =
    let (l, r, a) = Distinct-split (h ∷ xs) ys d in
    record {
      left = l;
      right = r;
      apart = a.1;
      head_off = a.0;
      last_off = last_or-Fresh h xs ys a;
      first_off = first_or-Fresh h xs ys l.0 a.1;
    }

pub Cut-insert :
    (h e : ℕ) (xs ys : List ℕ)
    → Cut h xs ys
    → Fresh e (h ∷ xs)
    → Fresh e ys
    → Distinct (h ∷ (xs ++ (e ∷ ys)))
Cut-insert h e xs ys c f g =
    Distinct-append (h ∷ xs) (e ∷ ys) c.left (g, c.right)
      (Apart-cons (h ∷ xs) e ys f (c.head_off, c.apart))

pub Cut-first : (h e : ℕ) (xs ys : List ℕ) → Cut h xs (e ∷ ys) → Fresh (first_or ys h) xs
Cut-first h e xs ys c = first_or-Fresh h xs ys c.left.0 (Apart-tail xs e ys c.apart)

pub Cut-remove : (h e : ℕ) (xs ys : List ℕ) → Cut h xs (e ∷ ys) → Distinct (h ∷ (xs ++ ys))
Cut-remove h e xs ys c =
    Distinct-append (h ∷ xs) ys c.left c.right.1 (c.head_off.1, Apart-tail xs e ys c.apart)
