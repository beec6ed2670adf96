-- ===== src/Server/Threads/Map.antt =====
-- A map's entries, own and others.
use trftp.Base.{
  ◌≡◌, ◌≢◌, refl, sym, ap, ◌∙◌, none, some, List, [], ◌∷◌, if◌then◌else◌, Bool-cases, inl, inr,
}
use trftp.Server.{Text, same_text, find, erase}
use trftp.Server.Table.{same_text_refl, same_text-eq}

module _ {ℓ} {A : Type ℓ} where
  pub find-insert :
      (key ip : Text) (a : A) (m : List (Text × A)) → key ≢ ip → find key ((ip, a) ∷ m) ≡ find key m
  unfolding find
  find-insert key ip a m h = elim (Bool-cases (same_text key ip)) [
    | inl hit ↦ absurd (h (same_text-eq key ip hit))
    | inr miss ↦ rw miss refl
  ]

  pub find_inserted : (ip : Text) (a : A) (m : List (Text × A)) → find ip ((ip, a) ∷ m) ≡ some a
  unfolding find
  find_inserted ip a m = rw (same_text_refl ip) refl

  pub find-erase_other :
      (key ip : Text) (m : List (Text × A)) → key ≢ ip → find key (erase ip m) ≡ find key m
  unfolding find erase
  find-erase_other key ip [] h = refl
  find-erase_other key ip ((k, a) ∷ rest) h =
      let ih = find-erase_other key ip rest h in
      elim (Bool-cases (same_text ip k)) [
        | inl hit ↦ elim (Bool-cases (same_text key k)) [
          | inl here ↦ absurd (h (same_text-eq key k here ∙ sym (same_text-eq ip k hit)))
          | inr there ↦ rw (hit, there) ih
        ]
        | inr miss ↦ rw (miss, find) (ap (λ o. if same_text key k then some a else o) ih)
      ]

  pub find-erase_own : (ip : Text) (m : List (Text × A)) → find ip (erase ip m) ≡ none
  unfolding find erase
  find-erase_own ip [] = refl
  find-erase_own ip ((k, a) ∷ rest) =
      let ih = find-erase_own ip rest in
      elim (Bool-cases (same_text ip k)) [
        | inl hit ↦ rw hit ih
        | inr miss ↦ rw (miss, find, miss) ih
      ]
