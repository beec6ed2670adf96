-- ===== src/Base/Store.antt =====
-- A store over the numbers, changed at one place.
use mathlib.Core.Path.{◌≡◌, sym, ap, subst, ◌∙◌}
use mathlib.Core.Logic.{◌≢◌, ◌⊎◌, inl, inr}
use mathlib.Core.Bool.{true}
use Prim.Native.Nat.{ℕ}
use native.Mathlib.Omega.{arith}
use trftp.Base.Tests.{◌==◌, if◌then◌else◌, Bool-cases, if-true, if-false, eq→==}

abbrev pub put {ℓ} : {A : Type ℓ} → ℕ → A → (ℕ → A) → ℕ → A
put k x f n = if n == k then x else f n

==→eq : (a b : ℕ) → (a == b) ≡ true → a ≡ b
==→eq a b h = ground arith

pub ℕ-cases : (a b : ℕ) → (a ≡ b) ⊎ (a ≢ b)
ℕ-cases a b = elim (Bool-cases (a == b)) [
  | inl hit ↦ inl (==→eq a b hit)
  | inr miss ↦ inr (λ e. absurd (cc (eq→== a b e, miss)))
]

module _ {ℓ} {A : Type ℓ} where
  pub put_here : (k : ℕ) (x : A) (f : ℕ → A) → put k x f k ≡ x
  put_here k x f = ground arith

  pub put_there : (k n : ℕ) (x : A) (f : ℕ → A) → n ≢ k → put k x f n ≡ f n
  put_there k n x f h = ground arith

  pub put-cases :
      (k n : ℕ) (x y : A) (f : ℕ → A)
      → put k x f n ≡ y
      → ((n ≡ k) × (x ≡ y)) ⊎ ((n ≢ k) × (f n ≡ y))
  put-cases k n x y f h = elim (Bool-cases (n == k)) [
    | inl hit ↦ inl (==→eq n k hit, sym (if-true x (f n) hit) ∙ h)
    | inr miss ↦ inr (λ e. absurd (cc (eq→== n k e, miss)), sym (if-false x (f n) miss) ∙ h)
  ]

  -- What holds everywhere, and of the new value.
  pub put-each {ℓ'} :
      (P : A → Type ℓ') (k : ℕ) (x : A) (f : ℕ → A)
      → P x
      → ((n : ℕ) → P (f n))
      → (n : ℕ) → P (put k x f n)
  put-each P k x f h hs n = elim (ℕ-cases n k) [
    | inl e ↦ subst P (sym (put_here k x f) ∙ ap (put k x f) (sym e)) h
    | inr e ↦ subst P (sym (put_there k n x f e)) (hs n)
  ]
