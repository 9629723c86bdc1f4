-- ===== src/IntrusiveList/Ring.antt =====
-- What a heap must look like for a head node to stand for a list of nodes.
use coo_rtos.Base.{
  ℕ, ◌≡◌, true, false, List, [], ◌∷◌, ◌++◌, arith, ◌==◌, if◌then◌else◌, has, Distinct, has-append,
}
use coo_rtos.IntrusiveList.{Heap}

-- From `a` the links lead through `xs` to `b`, and back.
abbrev pub Seg : Heap → ℕ → List ℕ → ℕ → Type 0
Seg h a [] b = ((h a).next ≡ b) × ((h b).prev ≡ a)
Seg h a (x ∷ xs) b = ((h a).next ≡ x) × ((h x).prev ≡ a) × Seg h x xs b

-- The head node `head` with its members in order, all distinct.
pub record Ring (h : Heap) (head : ℕ) (xs : List ℕ) : Type 0 where
  pub chain : Seg h head xs head
  pub distinct : Distinct (head ∷ xs)

abbrev pub last : ℕ → List ℕ → ℕ
last a [] = a
last a (x ∷ xs) = last x xs

abbrev pub first_or : List ℕ → ℕ → ℕ
first_or [] b = b
first_or (x ∷ xs) b = x

pub has-last : (a : ℕ) (xs : List ℕ) → has (last a xs) (a ∷ xs) ≡ true
has-last a [] = ground arith
has-last a (x ∷ xs) = ground (arith, has-last x xs)

pub Seg-prev : (h : Heap) (a : ℕ) (xs : List ℕ) (b : ℕ) → Seg h a xs b → (h b).prev ≡ last a xs
Seg-prev h a [] b s = s.1
Seg-prev h a (x ∷ xs) b s = Seg-prev h x xs b s.2

pub Seg-next : (h : Heap) (a : ℕ) (xs : List ℕ) (b : ℕ) → Seg h a xs b → (h a).next ≡ first_or xs b
Seg-next h a [] b s = s.0
Seg-next h a (x ∷ xs) b s = s.0

pub Seg-split :
    (h : Heap) (a : ℕ) (xs : List ℕ) (n : ℕ) (ys : List ℕ) (b : ℕ)
    → Seg h a (xs ++ n ∷ ys) b
    → Seg h a xs n × Seg h n ys b
Seg-split h a [] n ys b s = ((s.0, s.1), s.2)
Seg-split h a (x ∷ xs) n ys b s = let r = Seg-split h x xs n ys b s.2 in ((s.0, s.1, r.0), r.1)

pub Seg-join :
    (h : Heap) (a : ℕ) (xs : List ℕ) (n : ℕ) (ys : List ℕ) (b : ℕ)
    → Seg h a xs n
    → Seg h n ys b
    → Seg h a (xs ++ n ∷ ys) b
Seg-join h a [] n ys b s t = (s.0, s.1, t)
Seg-join h a (x ∷ xs) n ys b s t = (s.0, s.1, Seg-join h x xs n ys b s.2 t)

-- The members of the two parts of a list without repetition are apart.
pub Distinct-split :
    (xs ys : List ℕ)
    → Distinct (xs ++ ys)
    → Distinct xs × Distinct ys × ((c : ℕ) → has c xs ≡ true → has c ys ≡ false)
Distinct-split [] ys d = (tt, d, λ c h. ground arith)
Distinct-split (x ∷ xs) ys d =
    let r = Distinct-split xs ys d.1 in
    (ground (arith, has-append x xs ys), r.1, λ c i. ground (arith, r.2 c, has-append x xs ys))

pub Distinct-insert :
    (n : ℕ) (xs ys : List ℕ)
    → Distinct (xs ++ ys)
    → has n (xs ++ ys) ≡ false
    → Distinct (xs ++ n ∷ ys)
Distinct-insert n [] ys d out = (out, d)
Distinct-insert n (x ∷ xs) ys d out =
    ground (arith, Distinct-insert n xs ys d.1, has-append x xs ys, has-append x xs (n ∷ ys))

pub Distinct-drop :
    (n : ℕ) (xs ys : List ℕ)
    → Distinct (xs ++ n ∷ ys)
    → Distinct (xs ++ ys) × (has n (xs ++ ys) ≡ false)
Distinct-drop n [] ys d = (d.1, d.0)
Distinct-drop n (x ∷ xs) ys d =
    ground (arith, Distinct-drop n xs ys d.1, has-append x xs ys, has-append x xs (n ∷ ys))

module _ (g h : Heap) where
  -- A segment survives writes that spare the links it is made of.
  pub Seg-frame :
      (a : ℕ) (xs : List ℕ) (b : ℕ)
      → ((c : ℕ) → has c (a ∷ xs) ≡ true → (g c).next ≡ (h c).next)
      → ((c : ℕ) → has c xs ≡ true → (g c).prev ≡ (h c).prev)
      → (g b).prev ≡ (h b).prev
      → Seg h a xs b
      → Seg g a xs b
  Seg-frame a [] b nx pv e s = ground (arith, nx a)
  Seg-frame a (x ∷ xs) b nx pv e s = (
    ground (arith, nx a),
    ground (arith, pv x),
    Seg-frame x xs b (λ c i. nx c (ground arith)) (λ c i. pv c (ground arith)) e s.2,
  )

  -- A segment whose last node is made to point at `t`, and `t` back at it.
  pub Seg-retarget :
      (a : ℕ) (xs : List ℕ) (b t : ℕ)
      → Distinct (a ∷ xs)
      → ((c : ℕ) → has c (a ∷ xs) ≡ true → (g c).next ≡ (if c == last a xs then t else (h c).next))
      → ((c : ℕ) → has c xs ≡ true → (g c).prev ≡ (h c).prev)
      → (g t).prev ≡ last a xs
      → Seg h a xs b
      → Seg g a xs t
  Seg-retarget a [] b t d nx pv e s = ground (arith, nx a)
  Seg-retarget a (x ∷ xs) b t d nx pv e s = (
    ground (arith, nx a, has-last x xs),
    ground (arith, pv x),
    Seg-retarget x xs b t d.1 (λ c i. nx c (ground arith)) (λ c i. pv c (ground arith)) e s.2,
  )
