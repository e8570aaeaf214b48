-- ===== src/Base/Lists.antt =====
-- Lists measured by native numbers, and the array methods that the source uses.
use Prim.Native.Nat.{ℕ, suc, ◌+◌, ◌≤◌}
use mathlib.Core.Path.{◌≡◌, refl, ap, sym, subst, ◌∙◌}
use mathlib.Core.Logic.{◌⊎◌, inl, inr, ◌↔◌}
use mathlib.Core.Bool.{Bool, true, false, ◌&&◌, ◌||◌}
use mathlib.Core.List.{List, [], ◌∷◌, ◌++◌, map, Memᴰ}
use mathlib.Core.Option.{Option, none, some}
use native.Mathlib.Omega.{arith}
use settlement_ops.Base.Tests.{Bool-cases, if◌then◌else◌, true-ne-false}

-- A predicate of every element.
module _ {ℓ κ} {A : Type ℓ} (P : A → Type κ) where
  abbrev pub All : List A → Type κ
  All [] = Unit
  All (first ∷ others) = P first × All others

module _ {ℓ} {A : Type ℓ} where
  abbrev pub length : List A → ℕ
  length [] = 0
  length (x ∷ xs) = suc (length xs)

  -- `array.filter`
  unfoldable pub keep : (A → Bool) → List A → List A
  keep p [] = []
  keep p (x ∷ xs) = let rest = keep p xs in if p x then x ∷ rest else rest

  -- `array.find`
  unfoldable pub first : (A → Bool) → List A → Option A
  first p [] = none
  first p (x ∷ xs) = if p x then some x else first p xs

  -- `array.some` and `array.every`
  unfoldable pub any : (A → Bool) → List A → Bool
  any p [] = false
  any p (x ∷ xs) = p x || any p xs

  unfoldable pub every : (A → Bool) → List A → Bool
  every p [] = true
  every p (x ∷ xs) = p x && every p xs

  unfoldable pub is_empty : List A → Bool
  is_empty [] = true
  is_empty (x ∷ xs) = false

module _ {ℓ} {A : Type ℓ} where
  pub length-append : (xs ys : List A) → length (xs ++ ys) ≡ length xs + length ys
  length-append [] ys = omega arith
  length-append (x ∷ xs) ys = omega (arith, length-append xs ys)

  pub length-map {κ} : {B : Type κ} (f : A → B) (xs : List A) → length (map f xs) ≡ length xs
  length-map f [] = refl
  length-map f (x ∷ xs) = ap suc (length-map f xs)

  pub length-keep : (p : A → Bool) (xs : List A) → length (keep p xs) ≤ length xs
  unfolding keep
  length-keep p [] = omega arith
  length-keep p (x ∷ xs) = ground (arith, length-keep p xs)

  -- `filter` removes nothing exactly when every element passes.
  pub keep-nil_iff : (p : A → Bool) (xs : List A) → (keep p xs ≡ []) ↔ (any p xs ≡ false)
  unfolding keep any
  keep-nil_iff p [] = (λ h. refl, λ h. refl)
  keep-nil_iff p (x ∷ xs) = ground (arith, keep-nil_iff p xs)

  pub All-keep : (p : A → Bool) (xs : List A) → All (λ x. p x ≡ true) (keep p xs)
  unfolding keep
  All-keep p [] = tt
  All-keep p (x ∷ xs) = elim (Test-cases (p x)) [
    | inl h ↦ rw h (h, All-keep p xs)
    | inr h ↦ rw h (All-keep p xs)
  ]
    where
      Test-cases : (b : Bool) → (b ≡ true) ⊎ (b ≡ false)
      Test-cases true = inl refl
      Test-cases false = inr refl

  pub every-true-All : (p : A → Bool) (xs : List A) → every p xs ≡ true → All (λ x. p x ≡ true) xs
  unfolding every
  every-true-All p [] h = tt
  every-true-All p (x ∷ xs) h = (ground arith, every-true-All p xs (ground arith))

  pub any-false-All : (p : A → Bool) (xs : List A) → any p xs ≡ false → All (λ x. p x ≡ false) xs
  unfolding any
  any-false-All p [] h = tt
  any-false-All p (x ∷ xs) h = (ground arith, any-false-All p xs (ground arith))

  pub first-none_iff : (p : A → Bool) (xs : List A) → (first p xs ≡ none) ↔ (any p xs ≡ false)
  unfolding first any
  first-none_iff p [] = (λ h. refl, λ h. refl)
  first-none_iff p (x ∷ xs) = ground (arith, first-none_iff p xs)

  pub first-holds : (p : A → Bool) (xs : List A) (a : A) → first p xs ≡ some a → p a ≡ true
  unfolding first
  first-holds p [] a h = cc
  first-holds p (x ∷ xs) a h = ground (arith, first-holds p xs a)

module _ {ℓ} {A : Type ℓ} where
  pub first-Mem :
      (p : A → Bool) (xs : List A) (a : A) → first p xs ≡ some a → Memᴰ a xs × (p a ≡ true)
  unfolding first
  first-Mem p [] a h = absurd (none-ne-some h)
    where
      none-ne-some : none ≡ some a → ⊥
      none-ne-some e = cc
  first-Mem p (x ∷ xs) a h = elim (Bool-cases (p x)) [
    | inl hit ↦
        let same : x ≡ a = ground arith in (Memᴰ.head (sym same), subst (λ y. p y ≡ true) same hit)
    | inr miss ↦ let (found, holds) = first-Mem p xs a (ground arith) in (Memᴰ.tail found, holds)
  ]

  pub keep-Mem :
      (p : A → Bool) (xs : List A) (a : A) → Memᴰ a (keep p xs) → Memᴰ a xs × (p a ≡ true)
  unfolding keep
  keep-Mem p [] a h = elim h [ ]
  keep-Mem p (x ∷ xs) a h = elim (Bool-cases (p x)) [
    | inl yes_p ↦ step yes_p (keep-Mem p xs a) (rw yes_p at h)
    | inr not_p ↦ let (found, holds) = keep-Mem p xs a (rw not_p at h) in (Memᴰ.tail found, holds)
  ]
    where
      step :
          p x ≡ true
          → (Memᴰ a (keep p xs) → Memᴰ a xs × (p a ≡ true))
          → Memᴰ a (x ∷ keep p xs)
          → Memᴰ a (x ∷ xs) × (p a ≡ true)
      step h rest (Memᴰ.head e) = (Memᴰ.head e, subst (λ y. p y ≡ true) (sym e) h)
      step h rest (Memᴰ.tail m) = let (found, holds) = rest m in (Memᴰ.tail found, holds)

  pub Mem-keep : (p : A → Bool) (xs : List A) (a : A) → Memᴰ a xs → p a ≡ true → Memᴰ a (keep p xs)
  unfolding keep
  Mem-keep p [] a m h = elim m [ ]
  Mem-keep p (x ∷ xs) a (Memᴰ.head e) h = rw (subst (λ y. p y ≡ true) e h) (Memᴰ.head e)
  Mem-keep p (x ∷ xs) a (Memᴰ.tail m) h = elim (Bool-cases (p x)) [
    | inl yes_p ↦ rw yes_p (Memᴰ.tail (Mem-keep p xs a m h))
    | inr not_p ↦ rw not_p (Mem-keep p xs a m h)
  ]

  -- What holds of the elements that a filter keeps holds, under the test, of all.
  pub All-of-keep {κ} :
      (p : A → Bool) (P : A → Type κ) (xs : List A)
      → All P (keep p xs)
      → All (λ x. p x ≡ true → P x) xs
  unfolding keep
  All-of-keep p P [] h = tt
  All-of-keep p P (x ∷ xs) h = elim (Bool-cases (p x)) [
    | inl yes_p ↦ let h' = rw yes_p at h in ((λ _. h'.0), All-of-keep p P xs h'.1)
    | inr not_p ↦
        ((λ e. absurd (true-ne-false (sym e ∙ not_p))), All-of-keep p P xs (rw not_p at h))
  ]

  pub All-map-of {κ μ} :
      (P : A → Type κ) (Q : A → Type μ) (f : (x : A) → P x → Q x) (xs : List A)
      → All P xs
      → All Q xs
  All-map-of P Q f [] h = tt
  All-map-of P Q f (x ∷ xs) h = (f x h.0, All-map-of P Q f xs h.1)

  pub All-Mem {κ} : (P : A → Type κ) (xs : List A) {a : A} → All P xs → Memᴰ a xs → P a
  All-Mem P [] h m = elim m [ ]
  All-Mem P (x ∷ xs) h (Memᴰ.head e) = subst P (sym e) h.0
  All-Mem P (x ∷ xs) h (Memᴰ.tail m) = All-Mem P xs h.1 m

module _ {ℓ κ} {A : Type ℓ} (P : A → Type κ) where
  pub All-append : (xs ys : List A) → All P xs → All P ys → All P (xs ++ ys)
  All-append [] ys h k = k
  All-append (x ∷ xs) ys h k = (h.0, All-append xs ys h.1 k)

  pub All-append_left : (xs ys : List A) → All P (xs ++ ys) → All P xs
  All-append_left [] ys h = tt
  All-append_left (x ∷ xs) ys h = (h.0, All-append_left xs ys h.1)

  pub All-append_right : (xs ys : List A) → All P (xs ++ ys) → All P ys
  All-append_right [] ys h = h
  All-append_right (x ∷ xs) ys h = All-append_right xs ys h.1

  pub All-map-keep {μ} :
      {B : Type μ} (f : B → A) (p : B → Bool) (xs : List B)
      → All P (map f xs)
      → All P (map f (keep p xs))
  unfolding keep
  All-map-keep f p [] h = tt
  All-map-keep f p (x ∷ xs) h = elim (Bool-cases (p x)) [
    | inl hit ↦ rw hit (h.0, All-map-keep f p xs h.1)
    | inr miss ↦ rw miss (All-map-keep f p xs h.1)
  ]

pub List-cases {ℓ} :
    {A : Type ℓ} (xs : List A) → (xs ≡ []) ⊎ ((y : A) × (ys : List A) × (xs ≡ y ∷ ys))
List-cases [] = inl refl
List-cases (y ∷ ys) = inr (y, ys, refl)

-- `array.includes`, by a test for equality.
module _ {ℓ} {A : Type ℓ} (eq : A → A → Bool) where
  unfoldable pub includes : A → List A → Bool
  includes a [] = false
  includes a (x ∷ xs) = eq x a || includes a xs

  unfoldable pub unique_from : List A → List A → List A
  unfolding includes
  unique_from seen [] = []
  unique_from seen (x ∷ xs) =
      let kept = unique_from (x ∷ seen) xs in
      let skipped = unique_from seen xs in if includes x seen then skipped else x ∷ kept

-- `[...new Set(xs)]`: each value once, in the order of its first occurrence.
unfoldable pub unique {ℓ} : {A : Type ℓ} → (A → A → Bool) → List A → List A
unfolding unique_from
unique eq xs = unique_from eq [] xs
