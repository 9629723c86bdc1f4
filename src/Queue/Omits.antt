-- ===== src/Queue/Omits.antt =====
-- A sequence that keeps the order of another and leaves a number of its entries out.
use coo_rtos.Base.{ℕ, suc, ◌+◌, ◌≡◌, refl, ap, sym, ◌∙◌, List, [], ◌∷◌, ◌++◌, arith, subst}

module _ {ℓ} {T : Type ℓ} where
  -- `Omits n xs ys`: `xs` is `ys` without `n` of its entries.
  pub data Omits : ℕ → List T → List T → Type ℓ where
    done : {n : ℕ} {xs ys : List T} → n ≡ 0 → xs ≡ ys → Omits n xs ys
    keep :
        {n : ℕ} {xs ys : List T} (x : T) (fs bs : List T)
        → xs ≡ x ∷ fs
        → ys ≡ x ∷ bs
        → Omits n fs bs
        → Omits n xs ys
    skip :
        {n : ℕ} {xs ys : List T} (m : ℕ) (y : T) (bs : List T)
        → n ≡ suc m
        → ys ≡ y ∷ bs
        → Omits m xs bs
        → Omits n xs ys

  pub Omits-append : (n : ℕ) (xs ys zs : List T) → Omits n xs ys → Omits n (xs ++ zs) (ys ++ zs)
  Omits-append n xs ys zs (done z e) = done z (ap (λ fs. fs ++ zs) e)
  Omits-append n xs ys zs (keep x fs bs e d o) =
      keep x (fs ++ zs) (bs ++ zs) (rw e refl) (rw d refl) (Omits-append n fs bs zs o)
  Omits-append n xs ys zs (skip m y bs z d o) =
      skip m y (bs ++ zs) z (rw d refl) (Omits-append m xs bs zs o)

  pub append-Omits : (n : ℕ) (zs xs ys : List T) → Omits n xs ys → Omits n (zs ++ xs) (zs ++ ys)
  append-Omits n [] xs ys o = o
  append-Omits n (z ∷ zs) xs ys o =
      keep z (zs ++ xs) (zs ++ ys) refl refl (append-Omits n zs xs ys o)

  -- With nothing left out the two are equal.
  pub nothing_left_out : (xs ys : List T) (n : ℕ) → n ≡ 0 → Omits n xs ys → xs ≡ ys
  nothing_left_out xs ys n z (done y e) = e
  nothing_left_out xs ys n z (keep x fs bs e d o) =
      e ∙ ap (λ cs. x ∷ cs) (nothing_left_out fs bs n z o) ∙ sym d
  nothing_left_out xs ys n z (skip m y bs s d o) = absurd (omega (arith, z, s))

  cons_inj : {x y : T} {fs bs : List T} → x ∷ fs ≡ y ∷ bs → (x ≡ y) × (fs ≡ bs)
  cons_inj e = (cc, cc)

  -- Leaving out in two steps.
  pub Omits-trans :
      (m n : ℕ) (xs ys zs : List T) → Omits n ys zs → Omits m xs ys → Omits (m + n) xs zs
  Omits-trans m n xs ys zs (done z e) o =
      subst (λ c. Omits c xs zs) (omega (arith, z)) (subst (λ cs. Omits m xs cs) e o)
  Omits-trans m n xs ys zs (skip j y bs z d p) o =
      skip (m + j) y bs (omega (arith, z)) d (Omits-trans m j xs ys bs p o)
  Omits-trans m n xs ys zs (keep x fs bs e d p) (done z e') =
      keep x fs bs (e' ∙ e) d (subst (λ c. Omits c fs bs) (omega (arith, z)) p)
  Omits-trans m n xs ys zs (keep x fs bs e d p) (keep y cs ds e' d' o) =
      let h : (x ≡ y) × (fs ≡ ds) = cons_inj (sym e ∙ d') in
      keep x cs bs (e' ∙ ap (λ v. v ∷ cs) (sym h.0)) d
        (Omits-trans m n cs fs bs p (subst (λ ws. Omits m cs ws) (sym h.1) o))
  Omits-trans m n xs ys zs (keep x fs bs e d p) (skip j y cs z e' o) =
      let h : (x ≡ y) × (fs ≡ cs) = cons_inj (sym e ∙ e') in
      skip (j + n) x bs (omega (arith, z)) d
        (Omits-trans j n xs fs bs p (subst (λ ws. Omits j xs ws) (sym h.1) o))
