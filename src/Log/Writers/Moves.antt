-- ===== src/Log/Writers/Moves.antt =====
-- The steps of a writer, one by one.
use Prim.Native.String.{String}
use trftp.Base.{
  ℕ, ◌≡◌, ◌≢◌, ◌⊎◌, sym, ap, ◌∙◌, List, [], ◌∷◌, ◌++◌, inl, inr, put, put_here, put_there,
  put-cases, put-each, ℕ-cases, append-nil, append_assoc, subst,
}
use trftp.Log.Targets.{
  Target-cases, text_of, texts_of, text_of-own, text_of-other, texts_of-own, texts_of-other,
}
use trftp.Log.Streams.{FileMutexes, ThreadStream}
use trftp.Log.Writers.{Writer, idle, collecting, writing, System, IsFree}
use trftp.Log.Writers.Guarded.{
  Has, collects, guarded_same, Guards, writing-Guards, IsWhole, writing-IsGuarded, same_writer,
}

-- A writer that is not within its destructor.
abbrev pub IsQuiet : Writer → Type 0
IsQuiet w = (t : ThreadStream) (d l : List String) → w ≢ writing t d l

pub quiet-IsWhole :
    (s : System) (fs : FileMutexes) (k : ℕ) (w : Writer)
    → IsQuiet (s.writers k)
    → IsQuiet w
    → Guards fs w
    → ((j : ℕ) → Guards fs (s.writers j))
    → IsWhole s
    → IsWhole (record s { files = fs; writers = put k w s.writers })
quiet-IsWhole s fs k w was is g gs v =
    let old : (j : ℕ) (t : ThreadStream) (d l : List String)
        → put k w s.writers j ≡ writing t d l
        → s.writers j ≡ writing t d l =
      λ j t d l e. elim (put-cases k j w (writing t d l) s.writers e) [
        | inl (q, e') ↦ absurd (is t d l e')
        | inr (q, e') ↦ e'
      ] in
    let new : (j : ℕ) (t : ThreadStream) (d l : List String)
        → s.writers j ≡ writing t d l
        → put k w s.writers j ≡ writing t d l =
      λ j t d l e. put_there k j w s.writers (λ q. was t d l (ap s.writers (sym q) ∙ e)) ∙ e in
    record {
      guarded = put-each (Guards fs) k w s.writers g gs;
      split = λ j t d l e. v.split j t d l (old j t d l e);
      alone = λ j j' t t' d l d' l' e e' m.
          v.alone j j' t t' d l d' l' (old j t d l e) (old j' t' d' l' e') m;
      resting = λ os h. v.resting os (λ j t d l e. h j t d l (new j t d l e));
      partial = λ j t d l e. v.partial j t d l (old j t d l e);
    }

pub locks-IsWhole :
    (s : System) (k : ℕ) (t : ThreadStream)
    → s.writers k ≡ collecting t
    → IsFree s t.os_mutex
    → IsWhole s
    → IsWhole (record s { writers = put k (writing t [] t.buffer) s.writers })
locks-IsWhole s k t e free v =
    let w = writing t [] t.buffer in
    let guard = v.guarded k t (subst (Has t) (sym e) collects) in
    let old : (j : ℕ) (u : ThreadStream) (d l : List String)
        → put k w s.writers j ≡ writing u d l
        → ((j ≡ k) × (w ≡ writing u d l)) ⊎ ((j ≢ k) × (s.writers j ≡ writing u d l)) =
      λ j u d l h. put-cases k j w (writing u d l) s.writers h in
    let new : (j : ℕ) (u : ThreadStream) (d l : List String)
        → s.writers j ≡ writing u d l
        → put k w s.writers j ≡ writing u d l =
      λ j u d l h. put_there k j w s.writers (λ q. absurd (cc (ap s.writers q, e, h))) ∙ h in
    record {
      guarded =
          put-each (Guards s.files) k w s.writers (writing-Guards t [] t.buffer guard) v.guarded;
      split =
          λ j u d l h. elim (old j u d l h) [ inl (q, f) ↦ cc f | inr (q, f) ↦ v.split j u d l f ];
      alone = λ j j' u u' d l d' l' h h' m. elim (old j u d l h) [
        | inl (q, f) ↦ elim (old j' u' d' l' h') [
          | inl (q', f') ↦ q ∙ sym q'
          | inr (q', f') ↦ absurd (free j' u' d' l' f' (cc (f, m)))
        ]
        | inr (q, f) ↦ elim (old j' u' d' l' h') [
          | inl (q', f') ↦ absurd (free j u d l f (cc (f', m)))
          | inr (q', f') ↦ v.alone j j' u u' d l d' l' f f' m
        ]
      ];
      resting = λ os h. v.resting os (λ j u d l f. h j u d l (new j u d l f));
      partial = λ j u d l h. elim (old j u d l h) [
        | inl (q, f) ↦
            let same : t ≡ u = cc f in
            let empty : [] ≡ d = cc f in
            let rests = v.resting t.os λ i x a b g n.
              free i x a b g (sym (guarded_same s.files t x guard (writing-IsGuarded v g) n)) in
            ap (λ x. text_of x.os s.output) (sym same)
            ∙ rests
            ∙ ap (λ x. texts_of x.os s.finished) same
            ∙ sym (append-nil _)
            ∙ ap (λ x. texts_of u.os s.finished ++ x) empty
        | inr (q, f) ↦ v.partial j u d l f
      ];
    }

pub writes-IsWhole :
    (s : System) (k : ℕ) (t : ThreadStream) (text : String) (d l : List String)
    → s.writers k ≡ writing t d (text ∷ l)
    → IsWhole s
    → IsWhole (record s {
      writers = put k (writing t (d ++ (text ∷ [])) l) s.writers;
      output = s.output ++ ((t.os, text) ∷ []);
    })
writes-IsWhole s k t text d l e v =
    let w = writing t (d ++ (text ∷ [])) l in
    let old : (j : ℕ) (u : ThreadStream) (a b : List String)
        → put k w s.writers j ≡ writing u a b
        → ((j ≡ k) × (w ≡ writing u a b)) ⊎ ((j ≢ k) × (s.writers j ≡ writing u a b)) =
      λ j u a b h. put-cases k j w (writing u a b) s.writers h in
    record {
      guarded =
          put-each (Guards s.files) k w s.writers
            (writing-Guards t (d ++ (text ∷ [])) l (writing-IsGuarded v e)) v.guarded;
      split = λ j u a b h. elim (old j u a b h) [
        | inl (q, f) ↦
            let same : t ≡ u = cc f in
            let more : d ++ (text ∷ []) ≡ a = cc f in
            let rest : l ≡ b = cc f in
            ap (λ x. x.buffer) (sym same)
            ∙ v.split k t d (text ∷ l) e
            ∙ sym (append_assoc d (text ∷ []) l)
            ∙ ap (λ x. x ++ l) more
            ∙ ap (◌++◌ a) rest
        | inr (q, f) ↦ v.split j u a b f
      ];
      alone = λ j j' u u' a b a' b' h h' m. elim (old j u a b h) [
        | inl (q, f) ↦ elim (old j' u' a' b' h') [
          | inl (q', f') ↦ q ∙ sym q'
          | inr (q', f') ↦ q ∙ v.alone k j' t u' d (text ∷ l) a' b' e f' (cc (f, m))
        ]
        | inr (q, f) ↦ elim (old j' u' a' b' h') [
          | inl (q', f') ↦ v.alone j k u t a b d (text ∷ l) f e (cc (f', m)) ∙ sym q'
          | inr (q', f') ↦ v.alone j j' u u' a b a' b' f f' m
        ]
      ];
      resting = λ os h.
          let n : os ≢ t.os = h k t (d ++ (text ∷ [])) l (put_here k w s.writers) in
          text_of-other os t.os s.output text n
          ∙ v.resting os λ j u a b f. elim (ℕ-cases j k) [
            | inl q ↦ λ g. n (cc (ap s.writers q, e, f, g))
            | inr q ↦ h j u a b (put_there k j w s.writers q ∙ f)
          ];
      partial = λ j u a b h. elim (old j u a b h) [
        | inl (q, f) ↦
            let same : t ≡ u = cc f in
            let more : d ++ (text ∷ []) ≡ a = cc f in
            let fin = texts_of t.os s.finished in
            ap (λ x. text_of x.os (s.output ++ ((t.os, text) ∷ []))) (sym same)
            ∙ text_of-own t.os s.output text
            ∙ ap (λ x. x ++ (text ∷ [])) (v.partial k t d (text ∷ l) e)
            ∙ append_assoc fin d (text ∷ [])
            ∙ ap (◌++◌ fin) more
            ∙ ap (λ x. texts_of x.os s.finished ++ a) same
        | inr (q, f) ↦
            text_of-other u.os t.os s.output text (λ g. q (same_writer v f e g))
            ∙ v.partial j u a b f
      ];
    }

pub no_stream : {t : ThreadStream} → Has t idle → ⊥
no_stream h = elim h [ ]

pub unlocks-IsWhole :
    (s : System) (k : ℕ) (t : ThreadStream) (d : List String)
    → s.writers k ≡ writing t d []
    → IsWhole s
    → IsWhole (record s {
      writers = put k idle s.writers;
      finished = s.finished ++ ((t.os, t.buffer) ∷ []);
    })
unlocks-IsWhole s k t d e v =
    let old : (j : ℕ) (u : ThreadStream) (a b : List String)
        → put k idle s.writers j ≡ writing u a b
        → (j ≢ k) × (s.writers j ≡ writing u a b) =
      λ j u a b h. elim (put-cases k j idle (writing u a b) s.writers h) [
        | inl (q, f) ↦ absurd (cc f)
        | inr f ↦ f
      ] in
    let text : t.buffer ≡ d = v.split k t d [] e ∙ append-nil d in
    record {
      guarded = put-each (Guards s.files) k idle s.writers (λ u h. absurd (no_stream h)) v.guarded;
      split = λ j u a b h. let (q, f) = old j u a b h in v.split j u a b f;
      alone = λ j j' u u' a b a' b' h h' m.
          let (q, f) = old j u a b h in
          let (q', f') = old j' u' a' b' h' in v.alone j j' u u' a b a' b' f f' m;
      resting = λ os h. elim (Target-cases os t.os) [
        | inl g ↦
            ap (λ x. text_of x s.output) g
            ∙ v.partial k t d [] e
            ∙ ap (◌++◌ (texts_of t.os s.finished)) (sym text)
            ∙ sym (texts_of-own t.os s.finished t.buffer)
            ∙ ap (λ x. texts_of x (s.finished ++ ((t.os, t.buffer) ∷ []))) (sym g)
        | inr n ↦
            v.resting os (λ j u a b f. elim (ℕ-cases j k) [
              | inl q ↦ λ g. n (cc (ap s.writers q, e, f, g))
              | inr q ↦ h j u a b (put_there k j idle s.writers q ∙ f)
            ])
            ∙ sym (texts_of-other os t.os s.finished t.buffer n)
      ];
      partial = λ j u a b h.
          let (q, f) = old j u a b h in
          v.partial j u a b f
          ∙ ap (λ x. x ++ a)
              (sym (texts_of-other u.os t.os s.finished t.buffer (λ g. q (same_writer v f e g))));
    }
