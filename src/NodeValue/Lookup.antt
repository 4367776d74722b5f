-- ===== src/NodeValue/Lookup.antt =====
-- What the lookups in a list of items find.
use libwing.Prelude.{
  ℕ, ◌==◌, ◌+◌, zero, suc, ◌≡◌, refl, sym, ◌∙◌, Bool, true, List, [], ◌∷◌, some, get_elem?,
  Bool-cases, Option-cases, inl, inr, arith, eqb→eq, eqb_refl, ap,
}
use mathlib.Core.Option.{some-injective, none-ne-some}
use mathlib.Core.Bool.{false≢true}
use libwing.Prelude.BigEndian.{Bytes}
use libwing.NodeValue.{find_from, str_eq, find}

module _ {ℓ} {A : Type ℓ} (p : A → Bool) where
  pub find_from-get_elem? :
      (k : ℕ) (xs : List A) (i : ℕ) (x : A)
      → find_from k p xs ≡ some (i, x)
      → (n : ℕ) × (i ≡ k + n) × (get_elem? xs n ≡ some x) × (p x ≡ true)
  unfolding find_from
  find_from-get_elem? k [] i x h = absurd (none-ne-some (i, x) h)
  find_from-get_elem? k (y ∷ ys) i x h = elim (Bool-cases (p y)) [
    | inl e ↦
        let same : (k, y) ≡ (i, x) = some-injective (k, y) (i, x) (rw e at h) in
        (
          0,
          sym (ap (λ (q : ℕ × A). q.0) same) ∙ omega arith,
          ap (λ (q : ℕ × A). some q.1) same,
          sym (ap (λ (q : ℕ × A). p q.1) same) ∙ e,
        )
    | inr e ↦
        let (n, k1, k2, k3) = find_from-get_elem? (suc k) ys i x (rw e at h) in
        (suc n, omega (arith, k1), k2, k3)
  ]

  -- An item that passes is found, it or one before it.
  pub find_from-some :
      (k : ℕ) (xs : List A) (n : ℕ) (x : A)
      → get_elem? xs n ≡ some x
      → p x ≡ true
      → (i : ℕ) × (y : A) × (find_from k p xs ≡ some (i, y))
  unfolding find_from
  find_from-some k [] n x g h = absurd (none-ne-some x g)
  find_from-some k (y ∷ ys) zero x g h = (k, y, rw (ap p (some-injective y x g) ∙ h))
  find_from-some k (y ∷ ys) (suc n) x g h = elim (Bool-cases (p y)) [
    | inl e ↦ (k, y, rw e)
    | inr e ↦ let (i, z, r) = find_from-some (suc k) ys n x g h in (i, z, rw e r)
  ]

  pub find_from_zero :
      (xs : List A) (i : ℕ) (x : A)
      → find_from 0 p xs ≡ some (i, x)
      → (get_elem? xs i ≡ some x) × (p x ≡ true)
  find_from_zero xs i x h =
      let (n, k1, k2, k3) = find_from-get_elem? 0 xs i x h in
      (ap (get_elem? xs) (k1 ∙ omega arith) ∙ k2, k3)

  pub find-get_elem? :
      (xs : List A) (x : A)
      → find p xs ≡ some x
      → (n : ℕ) × (get_elem? xs n ≡ some x) × (p x ≡ true)
  find-get_elem? xs x h = elim (Option-cases (find_from 0 p xs)) [
    | inl e ↦ absurd (none-ne-some x (rw e at h))
    | inr ((i, y), e) ↦
        let (n, k1, k2, k3) = find_from-get_elem? 0 xs i y e in
        let same : y ≡ x = some-injective y x (rw e at h) in (n, rw same at k2, rw same at k3)
  ]

pub str_eq→eq : (a b : Bytes) → str_eq a b ≡ true → a ≡ b
unfolding str_eq
str_eq→eq [] [] h = refl
str_eq→eq [] (y ∷ ys) h = absurd (false≢true h)
str_eq→eq (x ∷ xs) [] h = absurd (false≢true h)
str_eq→eq (x ∷ xs) (y ∷ ys) h = elim (Bool-cases (x == y)) [
  | inl e ↦
      ap (λ n. n ∷ xs) (eqb→eq x y e) ∙ ap (λ (t : Bytes). y ∷ t) (str_eq→eq xs ys (rw e at h))
  | inr e ↦ absurd (false≢true (rw e at h))
]

pub str_eq_refl : (a : Bytes) → str_eq a a ≡ true
unfolding str_eq
str_eq_refl [] = refl
str_eq_refl (x ∷ xs) = rw (eqb_refl x, str_eq_refl xs)
