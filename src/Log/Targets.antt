-- ===== src/Log/Targets.antt =====
-- When two targets are the same, and what a log holds for one.
use Prim.Native.String.{String}
use package.text.Mathlib.Text.{◌==◌}
use package.text.Mathlib.TextEquality.{eq_iff}
use trftp.Base.{
  ◌≡◌, ◌≢◌, ◌⊎◌, refl, sym, ap, ◌∙◌, arith, Bool, true, false, ◌&&◌, leb, List, [], ◌∷◌, ◌++◌,
  if◌then◌else◌, if-true, Bool-cases, inl, inr, append-nil, append_assoc,
}
use trftp.Log.Streams.{Stream, cout, cerr, other_stream, Target, console, file}

abbrev same_stream : Stream → Stream → Bool
same_stream cout cout = true
same_stream cerr cerr = true
same_stream (other_stream a) (other_stream b) = leb a b && leb b a
same_stream _ _ = false

same_target : Target → Target → Bool
same_target (console a) (console b) = same_stream a b
same_target (file p) (file q) = p == q
same_target _ _ = false

same_stream→eq : (a b : Stream) → same_stream a b ≡ true → a ≡ b
same_stream→eq a b h = ground arith

same_stream_refl : (a : Stream) → same_stream a a ≡ true
same_stream_refl a = ground arith

same_target→eq : (a b : Target) → same_target a b ≡ true → a ≡ b
unfolding same_target
same_target→eq (console a) (console b) h = ap (λ x. console x) (same_stream→eq a b h)
same_target→eq (file p) (file q) h = ap (λ x. file x) ((eq_iff p q).0 h)
same_target→eq (console a) (file q) h = absurd cc
same_target→eq (file p) (console b) h = absurd cc

same_target_refl : (a : Target) → same_target a a ≡ true
unfolding same_target
same_target_refl (console a) = same_stream_refl a
same_target_refl (file p) = (eq_iff p p).1 refl

pub Target-cases : (a b : Target) → (a ≡ b) ⊎ (a ≢ b)
Target-cases a b = elim (Bool-cases (same_target a b)) [
  | inl hit ↦ inl (same_target→eq a b hit)
  | inr miss ↦ inr (λ e. absurd (cc (ap (λ x. same_target x b) e, same_target_refl b, miss)))
]

-- The pieces that stand in a target, in order.
pub text_of : Target → List (Target × String) → List String
text_of os [] = []
text_of os ((os', text) ∷ rest) =
    let texts = text_of os rest in if same_target os os' then text ∷ texts else texts

-- The texts that have been written to it, one behind the other.
pub texts_of : Target → List (Target × List String) → List String
texts_of os [] = []
texts_of os ((os', text) ∷ rest) =
    let texts = texts_of os rest in if same_target os os' then text ++ texts else texts

pub nothing_written : (os : Target) → text_of os [] ≡ texts_of os []
unfolding text_of texts_of
nothing_written os = refl

pub text_of-own :
    (os : Target) (out : List (Target × String)) (text : String)
    → text_of os (out ++ ((os, text) ∷ [])) ≡ text_of os out ++ (text ∷ [])
unfolding text_of
text_of-own os [] text = if-true (text ∷ []) [] (same_target_refl os)
text_of-own os ((os', x) ∷ out) text =
    let ih = text_of-own os out text in
    elim (Bool-cases (same_target os os')) [
      | inl hit ↦ rw hit (ap (◌∷◌ x) ih)
      | inr miss ↦ rw miss ih
    ]

pub text_of-other :
    (os os' : Target) (out : List (Target × String)) (text : String)
    → os ≢ os'
    → text_of os (out ++ ((os', text) ∷ [])) ≡ text_of os out
unfolding text_of
text_of-other os os' [] text n = elim (Bool-cases (same_target os os')) [
  | inl hit ↦ absurd (n (same_target→eq os os' hit))
  | inr miss ↦ rw miss refl
]
text_of-other os os' ((o, x) ∷ out) text n =
    let ih = text_of-other os os' out text n in
    elim (Bool-cases (same_target os o)) [
      | inl hit ↦ rw hit (ap (◌∷◌ x) ih)
      | inr miss ↦ rw miss ih
    ]

pub texts_of-own :
    (os : Target) (out : List (Target × List String)) (text : List String)
    → texts_of os (out ++ ((os, text) ∷ [])) ≡ texts_of os out ++ text
unfolding texts_of
texts_of-own os [] text = if-true (text ++ []) [] (same_target_refl os) ∙ append-nil text
texts_of-own os ((os', x) ∷ out) text =
    let ih = texts_of-own os out text in
    elim (Bool-cases (same_target os os')) [
      | inl hit ↦ rw hit (ap (λ l. x ++ l) ih ∙ sym (append_assoc x (texts_of os out) text))
      | inr miss ↦ rw miss ih
    ]

pub texts_of-other :
    (os os' : Target) (out : List (Target × List String)) (text : List String)
    → os ≢ os'
    → texts_of os (out ++ ((os', text) ∷ [])) ≡ texts_of os out
unfolding texts_of
texts_of-other os os' [] text n = elim (Bool-cases (same_target os os')) [
  | inl hit ↦ absurd (n (same_target→eq os os' hit))
  | inr miss ↦ rw miss refl
]
texts_of-other os os' ((o, x) ∷ out) text n =
    let ih = texts_of-other os os' out text n in
    elim (Bool-cases (same_target os o)) [
      | inl hit ↦ rw hit (ap (λ l. x ++ l) ih)
      | inr miss ↦ rw miss ih
    ]
