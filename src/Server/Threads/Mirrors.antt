-- ===== src/Server/Threads/Mirrors.antt =====
-- Steps that leave the table and the calls with an entry as they are.
use trftp.Base.{
  put, put_here, put_there, put-cases, ℕ-cases, ℕ, ◌≡◌, refl, sym, ap, ◌∙◌, arith, true, false,
  Option, none, some, inl, inr,
}
use trftp.Message.{MessageId, TrftpMessage}
use trftp.ServerTransaction.{ServerTransaction}
use trftp.Server.{find}
use trftp.Server.Threads.{
  Stage, Pc, returned, behind_wait, Call, System, Act, sends, reads, expires, notices, tests,
  gives_up, ends, acted,
}
use trftp.Server.Threads.Exclusive.{in_flight, Holds, IsExclusive}

-- A call goes on in flight, where nothing happens to the table.
behind_wait_flies : (stage : Stage) (o : Option MessageId) → in_flight (behind_wait stage o) ≡ true
behind_wait_flies stage o = ground arith

pub Act-flies :
    {raw : TrftpMessage} {t t' : ServerTransaction} {pc pc' : Pc}
    → Act raw t pc t' pc'
    → (in_flight pc ≡ true) × (in_flight pc' ≡ true)
Act-flies (sends stage) = (refl, refl)
Act-flies (reads stage) = (refl, refl)
Act-flies (expires stage old e) = (refl, behind_wait_flies stage none)
Act-flies (notices stage old e) = (refl, refl)
Act-flies (tests stage) = (refl, behind_wait_flies stage _)
Act-flies gives_up = (refl, refl)
Act-flies ends = (refl, refl)

-- A system with the table of another, each of whose calls that have an entry is one of the other's,
-- and the other way round.
pub record Mirrors (s u : System) : Type 0 where
  same_active : u.active ≡ s.active
  back :
      (k : ℕ) (c : Call)
      → Holds u k c
      → (c0 : Call) × Holds s k c0 × (c0.ip ≡ c.ip) × (c0.tran ≡ c.tran)
  forth :
      (k : ℕ) (c : Call)
      → Holds s k c
      → (c1 : Call) × Holds u k c1 × (c1.ip ≡ c.ip) × (c1.tran ≡ c.tran)

pub Mirrors-IsExclusive : {s u : System} → Mirrors s u → IsExclusive s → IsExclusive u
Mirrors-IsExclusive {s} {u} m v = record {
  owns = λ k c h.
      let (c0, h0, ip, tran) = m.back k c h in
      ap (find c.ip) m.same_active
      ∙ ap (λ x. find x s.active) (sym ip)
      ∙ v.owns k c0 h0
      ∙ ap (λ n. some n) tran;
  apart = λ k k' c c' h h' e.
      let (c0, h0, ip, tran) = m.back k c h in
      let (c1, h1, ip', tran') = m.back k' c' h' in v.apart k k' c0 c1 h0 h1 (ip ∙ e ∙ sym ip');
  owned = λ ip n e.
      let o = v.owned ip n (sym (ap (find ip) m.same_active) ∙ e) in
      let (c1, h1, ip', tran') = m.forth o.thread o.call o.holds in
      record {
        thread = o.thread;
        call = c1;
        holds = h1;
        same_ip = ip' ∙ o.same_ip;
        same_tran = tran' ∙ o.same_tran;
      };
}

-- The same calls over the same table.
pub same-Mirrors : (s u : System) → u.active ≡ s.active → u.calls ≡ s.calls → Mirrors s u
same-Mirrors s u a e = record {
  same_active = a;
  back = λ k c h.
      (c, record { called = sym (ap (λ f. f k) e) ∙ h.called; flying = h.flying }, refl, refl);
  forth =
      λ k c h. (c, record { called = ap (λ f. f k) e ∙ h.called; flying = h.flying }, refl, refl);
}

pub acted-Mirrors :
    (s : System) (k : ℕ) (c : Call) (t : ServerTransaction) (pc : Pc)
    → Holds s k c
    → in_flight pc ≡ true
    → Mirrors s (acted s k c t pc)
acted-Mirrors s k c t pc h flies =
    let c' = record c { pc = pc } in
    record {
      same_active = refl;
      back = λ j d g. elim (put-cases k j (some c') (some d) s.calls g.called) [
        | inl (e, e') ↦
            (c, record { called = ap s.calls e ∙ h.called; flying = h.flying }, cc e', cc e')
        | inr (e, e') ↦ (d, record { called = e'; flying = g.flying }, refl, refl)
      ];
      forth = λ j d g. elim (ℕ-cases j k) [
        | inl e ↦ (
          c',
          record {
            called = ap (put k (some c') s.calls) e ∙ put_here k (some c') s.calls;
            flying = flies;
          },
          cc (ap s.calls e, h.called, g.called),
          cc (ap s.calls e, h.called, g.called),
        )
        | inr n ↦ (
          d,
          record { called = put_there k j (some c') s.calls n ∙ g.called; flying = g.flying },
          refl,
          refl,
        )
      ];
    }

-- A thread whose call has no entry goes on.
grounded-Mirrors :
    (s : System) (k : ℕ) (o : Option Call)
    → ((c : Call) → s.calls k ≡ some c → in_flight c.pc ≡ false)
    → ((c : Call) → o ≡ some c → in_flight c.pc ≡ false)
    → Mirrors s (record s { calls = put k o s.calls })
grounded-Mirrors s k o was is = record {
  same_active = refl;
  back = λ j d g. elim (put-cases k j o (some d) s.calls g.called) [
    | inl (e, e') ↦ absurd (cc (is d e', g.flying))
    | inr (e, e') ↦ (d, record { called = e'; flying = g.flying }, refl, refl)
  ];
  forth = λ j d g. elim (ℕ-cases j k) [
    | inl e ↦ absurd (cc (was d (ap s.calls (sym e) ∙ g.called), g.flying))
    | inr n ↦
        (d, record { called = put_there k j o s.calls n ∙ g.called; flying = g.flying }, refl, refl)
  ];
}

pub leaves-Mirrors :
    (s : System) (k : ℕ) (c : Call) (status : MessageId)
    → s.calls k ≡ some c
    → c.pc ≡ returned status
    → Mirrors s (record s { calls = put k none s.calls })
leaves-Mirrors s k c status e pc =
    let same : (d : Call) → s.calls k ≡ some d → c ≡ d = λ d e'. cc (e, e') in
    grounded-Mirrors s k none (λ d e'. ap (λ x. in_flight x.pc) (sym (same d e')) ∙ ap in_flight pc)
      (λ d e'. absurd (cc e'))
