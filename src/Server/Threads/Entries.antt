-- ===== src/Server/Threads/Entries.antt =====
-- An entry that is inserted, and one that is erased.
use trftp.Base.{
  put_here, put_there, put-cases, ℕ, ◌≡◌, ◌≢◌, ◌⊎◌, refl, sym, ap, ◌∙◌, none, some, Bool-cases, inl,
  inr,
}
use trftp.Message.{MessageId}
use trftp.ServerTransaction.{ServerTransaction}
use trftp.Server.{Text, same_text, find}
use trftp.Server.Table.{same_text_refl, same_text-eq}
use trftp.Server.Threads.{notifying, commands, erases, returned, Call, System, emplaced, removed}
use trftp.Server.Threads.Map.{find-insert, find_inserted, find-erase_other, find-erase_own}
use trftp.Server.Threads.Exclusive.{in_flight, Holds, IsExclusive}

pub emplaced-IsExclusive :
    (s : System) (k : ℕ) (ip : Text) (t : ServerTransaction)
    → s.calls k ≡ none
    → find ip s.active ≡ none
    → IsExclusive s
    → IsExclusive (emplaced s k ip t)
emplaced-IsExclusive s k ip t idle free v =
    let new : Call = record { ip = ip; tran = s.made; pc = commands notifying } in
    let u = emplaced s k ip t in
    let old : (j : ℕ) (d : Call)
        → Holds u j d
        → ((j ≡ k) × (new ≡ d)) ⊎ ((d.ip ≢ ip) × Holds s j d) =
      λ j d g. elim (put-cases k j (some new) (some d) s.calls g.called) [
        | inl (e, e') ↦ inl (e, cc e')
        | inr (e, e') ↦
            let h : Holds s j d = record { called = e'; flying = g.flying } in
            inr (λ q. absurd (cc (v.owns j d h, ap (λ x. find x s.active) q, free)), h)
      ] in
    record {
      owns = λ j d g. elim (old j d g) [
        | inl (e, e') ↦
            ap (λ x. find x.ip u.active) (sym e')
            ∙ find_inserted ip s.made s.active
            ∙ ap (λ x. some x.tran) e'
        | inr (n, h) ↦ find-insert d.ip ip s.made s.active n ∙ v.owns j d h
      ];
      apart = λ j j' d d' g g' q. elim (old j d g) [
        | inl (e, e') ↦ elim (old j' d' g') [
          | inl (f, f') ↦ e ∙ sym f
          | inr (n, h) ↦ absurd (n (sym q ∙ ap (λ x. x.ip) (sym e')))
        ]
        | inr (n, h) ↦ elim (old j' d' g') [
          | inl (f, f') ↦ absurd (n (q ∙ ap (λ x. x.ip) (sym f')))
          | inr (n', h') ↦ v.apart j j' d d' h h' q
        ]
      ];
      owned = λ key n e. elim (Bool-cases (same_text key ip)) [
        | inl hit ↦
            let q = same_text-eq key ip hit in
            record {
              thread = k;
              call = new;
              holds = record { called = put_here k (some new) s.calls; flying = refl };
              same_ip = sym q;
              same_tran = cc (e, ap (λ x. find x u.active) q, find_inserted ip s.made s.active);
            }
        | inr miss ↦
            let q : key ≢ ip =
              λ q. absurd (cc (ap (λ x. same_text x ip) q, same_text_refl ip, miss)) in
            let o = v.owned key n (sym (find-insert key ip s.made s.active q) ∙ e) in
            let other : o.thread ≢ k = λ r. absurd (cc (ap s.calls r, o.holds.called, idle)) in
            record {
              thread = o.thread;
              call = o.call;
              holds = record {
                called = put_there k o.thread (some new) s.calls other ∙ o.holds.called;
                flying = o.holds.flying;
              };
              same_ip = o.same_ip;
              same_tran = o.same_tran;
            }
      ];
    }

pub removed-IsExclusive :
    (s : System) (k : ℕ) (c : Call) (status : MessageId)
    → s.calls k ≡ some c
    → c.pc ≡ erases status
    → IsExclusive s
    → IsExclusive (removed s k c status)
removed-IsExclusive s k c status called pc v =
    let done : Call = record c { pc = returned status } in
    let u = removed s k c status in
    let own : Holds s k c = record { called = called; flying = ap in_flight pc } in
    let old : (j : ℕ) (d : Call) → Holds u j d → (d.ip ≢ c.ip) × Holds s j d = λ j d g.
      elim (put-cases k j (some done) (some d) s.calls g.called) [
        | inl (e, e') ↦
            let q : done ≡ d = cc e' in absurd (cc (ap (λ x. in_flight x.pc) q, g.flying))
        | inr (e, e') ↦
            let h : Holds s j d = record { called = e'; flying = g.flying } in
            (λ q. e (v.apart j k d c h own q), h)
      ] in
    record {
      owns =
          λ j d g. let (n, h) = old j d g in find-erase_other d.ip c.ip s.active n ∙ v.owns j d h;
      apart = λ j j' d d' g g' q.
          let (n, h) = old j d g in let (n', h') = old j' d' g' in v.apart j j' d d' h h' q;
      owned = λ key n e. elim (Bool-cases (same_text key c.ip)) [
        | inl hit ↦ absurd (
            cc (
              ap (λ x. find x u.active) (same_text-eq key c.ip hit),
              e,
              find-erase_own c.ip s.active,
            ))
        | inr miss ↦
            let q : key ≢ c.ip =
              λ q. absurd (cc (ap (λ x. same_text x c.ip) q, same_text_refl c.ip, miss)) in
            let o = v.owned key n (sym (find-erase_other key c.ip s.active q) ∙ e) in
            let other : o.thread ≢ k = λ r.
              let f : o.call ≡ c = cc (ap s.calls r, o.holds.called, called) in
              q (sym o.same_ip ∙ ap (λ x. x.ip) f) in
            record {
              thread = o.thread;
              call = o.call;
              holds = record {
                called = put_there k o.thread (some done) s.calls other ∙ o.holds.called;
                flying = o.holds.flying;
              };
              same_ip = o.same_ip;
              same_tran = o.same_tran;
            }
      ];
    }
