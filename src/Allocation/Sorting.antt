-- ===== src/Allocation/Sorting.antt =====
-- The standard library's `sort.SliceStable` with a Boolean order, as insertion from the right, and
-- texts in the order of Go's `<`.
use mathlib.Core.List.{Memᴰ}
use mathlib.Core.List.Memᴰ
use karpenter_provider_azure.Prelude.{
  Bool, true, false, List, [], ◌∷◌, Text, ltb, ◌==◌, if◌then◌else◌, ◌≡◌, refl, sym, subst, ◌⊎◌, inl,
  inr, arith, Bool-cases,
}

-- `s < t`.
unfoldable pub text_lt : Text → Text → Bool
text_lt s [] = false
text_lt [] (d ∷ t) = true
text_lt (c ∷ s) (d ∷ t) = let rest = text_lt s t in if c == d then rest else ltb c d

pub text_lt-asym : (s t : Text) → text_lt s t ≡ true → text_lt t s ≡ false
unfolding text_lt
text_lt-asym [] [] h = refl
text_lt-asym (c ∷ s) [] h = cc
text_lt-asym [] (d ∷ t) h = refl
text_lt-asym (c ∷ s) (d ∷ t) h = ground (arith, text_lt-asym s t)

pub text_lt-negtrans :
    (s t u : Text) → text_lt u t ≡ false → text_lt t s ≡ false → text_lt u s ≡ false
unfolding text_lt
text_lt-negtrans [] t u h k = refl
text_lt-negtrans (c ∷ s) [] u h k = cc
text_lt-negtrans (c ∷ s) (d ∷ t) [] h k = cc
text_lt-negtrans (c ∷ s) (d ∷ t) (e ∷ u) h k = ground (arith, text_lt-negtrans s t u)

-- What a rearrangement keeps.
abbrev pub SameElements {ℓ} : {A : Type ℓ} → List A → List A → Type ℓ
SameElements {A = A} l r = (x : A) → (Memᴰ x l → Memᴰ x r) × (Memᴰ x r → Memᴰ x l)

-- Nothing in the list comes before `h`.
abbrev pub Least {ℓ} : {A : Type ℓ} → (A → A → Bool) → A → List A → Type ℓ
Least {A = A} less h l = (x : A) → Memᴰ x l → less x h ≡ false

abbrev pub IsSortedBy {ℓ} : {A : Type ℓ} → (A → A → Bool) → List A → Type ℓ
IsSortedBy less [] = Unit
IsSortedBy less (x ∷ l) = Least less x l × IsSortedBy less l

-- A strict order whose incomparable elements are tied.
pub record IsWeakOrder {ℓ} {A : Type ℓ} (less : A → A → Bool) : Type ℓ where
  pub asym : (a b : A) → less a b ≡ true → less b a ≡ false
  pub negtrans : (a b c : A) → less c b ≡ false → less b a ≡ false → less c a ≡ false

module _ {ℓ} {A : Type ℓ} (less : A → A → Bool) where
  unfoldable pub insert_stable : A → List A → List A
  insert_stable x [] = x ∷ []
  insert_stable x (y ∷ ys) =
      let rest = insert_stable x ys in if less y x then y ∷ rest else x ∷ y ∷ ys

  unfoldable pub sort_stable : List A → List A
  unfolding insert_stable
  sort_stable [] = []
  sort_stable (x ∷ xs) = insert_stable x (sort_stable xs)

  swap_front : (x y z : A) (l : List A) → Memᴰ z (x ∷ l) → Memᴰ z (x ∷ y ∷ l)
  swap_front x y z l (Memᴰ.head e) = Memᴰ.head e
  swap_front x y z l (Memᴰ.tail k) = Memᴰ.tail (Memᴰ.tail k)

  move_down :
      (x y z : A) (l r : List A) → (Memᴰ z (x ∷ l) → Memᴰ z r) → Memᴰ z (x ∷ y ∷ l) → Memᴰ z (y ∷ r)
  move_down x y z l r f (Memᴰ.head e) = Memᴰ.tail (f (Memᴰ.head e))
  move_down x y z l r f (Memᴰ.tail (Memᴰ.head e)) = Memᴰ.head e
  move_down x y z l r f (Memᴰ.tail (Memᴰ.tail k)) = Memᴰ.tail (f (Memᴰ.tail k))

  move_up :
      (x y z : A) (l r : List A) → (Memᴰ z r → Memᴰ z (x ∷ l)) → Memᴰ z (y ∷ r) → Memᴰ z (x ∷ y ∷ l)
  move_up x y z l r f (Memᴰ.head e) = Memᴰ.tail (Memᴰ.head e)
  move_up x y z l r f (Memᴰ.tail k) = swap_front x y z l (f k)

  insert_stable-to : (x z : A) (l : List A) → Memᴰ z (x ∷ l) → Memᴰ z (insert_stable x l)
  unfolding insert_stable
  insert_stable-to x z [] m = m
  insert_stable-to x z (y ∷ ys) m = elim (Bool-cases (less y x)) [
    | inl e ↦ rw e (move_down x y z ys (insert_stable x ys) (insert_stable-to x z ys) m)
    | inr e ↦ rw e m
  ]

  insert_stable-from : (x z : A) (l : List A) → Memᴰ z (insert_stable x l) → Memᴰ z (x ∷ l)
  unfolding insert_stable
  insert_stable-from x z [] m = m
  insert_stable-from x z (y ∷ ys) m = elim (Bool-cases (less y x)) [
    | inl e ↦ move_up x y z ys (insert_stable x ys) (insert_stable-from x z ys) (rw e at m)
    | inr e ↦ rw e at m
  ]

  cons_map :
      (x : A) (l r : List A)
      → ((z : A) → Memᴰ z l → Memᴰ z r)
      → (z : A) → Memᴰ z (x ∷ l)
      → Memᴰ z (x ∷ r)
  cons_map x l r f z (Memᴰ.head e) = Memᴰ.head e
  cons_map x l r f z (Memᴰ.tail m) = Memᴰ.tail (f z m)

  pub sort_stable-SameElements : (l : List A) → SameElements l (sort_stable l)
  unfolding sort_stable
  sort_stable-SameElements [] = λ z. (λ m. m, λ m. m)
  sort_stable-SameElements (x ∷ l) =
      let ih = sort_stable-SameElements l in
      λ z. (
        λ m.
            insert_stable-to x z (sort_stable l)
              (cons_map x l (sort_stable l) (λ y k. (ih y).0 k) z m),
        λ m.
            cons_map x (sort_stable l) l (λ y k. (ih y).1 k) z
              (insert_stable-from x z (sort_stable l) m),
      )

  module _ (order : IsWeakOrder less) where
    insert_stable-IsSortedBy :
        (x : A) (l : List A) → IsSortedBy less l → IsSortedBy less (insert_stable x l)
    unfolding insert_stable
    insert_stable-IsSortedBy x [] s = (λ z m. absurd (Memᴰ.not-nil m), tt)
    insert_stable-IsSortedBy x (y ∷ ys) (least, s) = elim (Bool-cases (less y x)) [
      | inl e ↦ rw e (
        λ z m. below e z (Memᴰ.cases_cons (insert_stable-from x z ys m)),
        insert_stable-IsSortedBy x ys s,
      )
      | inr e ↦ rw e (λ z m. above e z (Memᴰ.cases_cons m), (least, s))
    ]
      where
        below : less y x ≡ true → (z : A) → (z ≡ x) ⊎ Memᴰ z ys → less z y ≡ false
        below e z (inl p) = subst (λ w. less w y ≡ false) (sym p) (order.asym y x e)
        below e z (inr m) = least z m

        above : less y x ≡ false → (z : A) → (z ≡ y) ⊎ Memᴰ z ys → less z x ≡ false
        above e z (inl p) = subst (λ w. less w x ≡ false) (sym p) e
        above e z (inr m) = order.negtrans x y z (least z m) e

    pub sort_stable-IsSortedBy : (l : List A) → IsSortedBy less (sort_stable l)
    unfolding sort_stable
    sort_stable-IsSortedBy [] = tt
    sort_stable-IsSortedBy (x ∷ l) =
        insert_stable-IsSortedBy x (sort_stable l) (sort_stable-IsSortedBy l)
