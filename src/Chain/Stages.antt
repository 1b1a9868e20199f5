-- ===== src/Chain/Stages.antt =====
-- backend.py: what each stage of `_submit_authorized_commitment` establishes of the record.
use mt.Base.{ℕ, String, ◌<>◌, refl, ℤ, not-false, ◌∷◌}
use mt.Errors.{ok}
use mt.System.{Sys}
use mt.System.Rules.{Hoare, Hoare-bind, Hoare-pure, Hoare-refuse}
use mt.Chain.Objects.{Obj, Entries}
use mt.Chain.Fee.{first_era}
use mt.Chain.Envelope.{envelope_keys}
use mt.Chain.Node.{
  Node, Session, Track, C, call_read, deposit_read, index_read, estimated, extrinsic_read,
}
use mt.Chain.Quote.{
  check_call, read_index, estimate, inspect, composed, deposit, check_deposits, first_estimate,
}
use mt.Chain.Facts.{
  IsAmount, amount, check_fee-IsFree, check_era-IsMortal, deposits-zero, shaped-dict,
  check_envelope-IsEnvelope,
}
use mt.Chain.Rules.{
  Log, At, IsTolerant, Hoare-lift, given, Hoare-or_refused, Hoare-else_refused, Hoare-instead,
  Hoare-quiet, Hoare-step, Hoare-after, Hoare-ensures, Hoare-raise_if, head-Keeps, ask-Keeps,
}
use mt.Chain.Trail.{IsCall, Deposited, Quoted, Inspected}

module _ {W A : Type 0} {I : Sys (Track W) → Type 0} where
  -- A record that is known to be something.
  pub opened :
      {R : Log → Type 0} {m : C W A} {Q : A → Sys (Track W) → Type 0}
      → ((l : Log) → R l → Hoare I (At l) m Q)
      → Hoare I (λ s. R s.world.steps) m Q
  opened k = record { at = λ s i p. (k s.world.steps p).at s i refl }

  pub exists :
      {B : Type 0} {P : B → Sys (Track W) → Type 0} {m : C W A} {Q : A → Sys (Track W) → Type 0}
      → ((b : B) → Hoare I (P b) m Q)
      → Hoare I (λ s. (b : B) × P b s) m Q
  exists k = record { at = λ s i p. (k p.0).at s i p.1 }

module _ {W : Type 0} (n : Node W) (k : Session) {I : Sys (Track W) → Type 0}
    (tolerant : IsTolerant I) where
  pub check_call-Hoare :
      (call : ℕ) (payload text : String) (l : Log)
      → Hoare I
          (At l)
          (check_call n k call payload text)
          (λ _ s. (v : Obj) × (IsCall n.equals payload v × At (call_read call (ok v) ∷ l) s))
  unfolding check_call
  check_call-Hoare call payload text l =
      Hoare-bind (Hoare-step tolerant l (call_read call) _ λ r. refl)
        λ v. Hoare-after (λ _ s q. (v, (not-false _ q.0, q.1))) (Hoare-raise_if _ _ _)

  pub read_index-Hoare :
      (address label text : String) (l : Log)
      → Hoare I
          (At l)
          (read_index n k address label text)
          (λ i s. (o : Obj) × (IsAmount o i × At (index_read (ok o) ∷ l) s))
  unfolding read_index
  read_index-Hoare address label text l = Hoare-else_refused text (
      Hoare-bind (Hoare-step tolerant l index_read _ λ r. refl)
        λ o. Hoare-after (λ i s q. (o, q)) (Hoare-ensures (amount label o)))

  pub estimate-Hoare :
      (text : String) (call : ℕ) (era : Entries) (nonce : ℤ) (l : Log)
      → Hoare I
          (At l)
          (estimate n k text call era nonce)
          (λ p. At (estimated call era nonce (ok p) ∷ l))
  unfolding estimate
  estimate-Hoare text call era nonce l =
      Hoare-or_refused text (Hoare-step tolerant l (estimated call era nonce) _ λ r. refl)

  pub composed-Hoare :
      (payload : String) (l : Log) → Hoare I (At l) (composed n k payload) (λ _. At l)
  unfolding composed
  composed-Hoare payload l = Hoare-else_refused _ (
      Hoare-bind (Hoare-quiet tolerant l λ J q. head-Keeps q n) λ head.
        Hoare-bind (Hoare-quiet tolerant l λ J q. ask-Keeps q _) λ call. Hoare-pure _ λ s p. p)

  deposit-Hoare :
      (name head : String) (l : Log)
      → Hoare I
          (At l)
          (deposit n k name head)
          (λ i s. (o : Obj) × (IsAmount o i × At (deposit_read name (ok o) ∷ l) s))
  unfolding deposit
  deposit-Hoare name head l =
      Hoare-bind (Hoare-step tolerant l (deposit_read name) _ λ r. refl)
        λ o. Hoare-after (λ i s q. (o, q)) (Hoare-ensures (amount _ o))

  -- Both deposits are zero.
  pub Deposited-Hoare :
      (payload head : String) (call : ℕ) (base : Log) (v : Obj)
      → IsCall n.equals payload v
      → Hoare I
          (At (call_read call (ok v) ∷ base))
          (check_deposits n k head)
          (λ _ s. Deposited n.equals payload base call s.world.steps)
  unfolding check_deposits
  Deposited-Hoare payload head call base v is_call =
      Hoare-bind
        (Hoare-else_refused _ (
          Hoare-bind (deposit-Hoare "InitialDeposit" head _) λ i. exists λ c. given λ first.
            Hoare-bind (deposit-Hoare "FieldDeposit" head _) λ f.
              exists λ d. given λ second. Hoare-pure (i, f) λ s p. (c, (d, (first, (second, p))))))
        λ (i, f). exists λ c. exists λ d. given λ first. given λ second.
          Hoare-after
            (λ _ s q.
              let zero = deposits-zero c d i f first second q.0 in
              record {
                value = v;
                initial = c;
                per_field = d;
                log = q.1;
                composed = is_call;
                initial_zero = zero.0;
                field_zero = zero.1;
              })
            (Hoare-raise_if _ _ _)

  -- The first estimate fixed the nonce and the era, at no fee.
  pub Quoted-Hoare :
      (payload address : String) (base : Log) (call : ℕ) (l : Log)
      → Deposited n.equals payload base call l
      → Hoare I
          (At l)
          (first_estimate n k address call payload)
          (λ q s. Quoted n.equals payload base call q.0 q.1 s.world.steps)
  unfolding first_estimate
  Quoted-Hoare payload address base call l deposited =
      Hoare-bind
        (Hoare-else_refused _ (
          Hoare-bind (Hoare-step tolerant l index_read _ λ r. refl) λ o.
            Hoare-bind (Hoare-ensures (amount _ o)) λ i. given λ index.
              Hoare-bind (Hoare-step tolerant _ (estimated call first_era i) _ λ r. refl)
                λ (p, e). Hoare-pure (i, p, e) λ s q. (o, (index, q))))
        λ (i, p, e). exists λ o. given {F = IsAmount o i} λ index.
          Hoare-bind (Hoare-ensures (check_fee-IsFree _ _ _ p)) λ _. given λ free.
            Hoare-bind (Hoare-ensures (check_era-IsMortal e)) λ _. given λ mortal.
              Hoare-bind (check_call-Hoare call payload _ _) λ _. exists λ v. given λ is_call.
                Hoare-pure (i, e)
                  λ s q. record {
                    before = l;
                    deposited = deposited;
                    index = o;
                    payment = p;
                    value = v;
                    log = q;
                    nonce_at = index.value;
                    free = free;
                    mortal = mortal;
                    unchanged = is_call;
                  }

  -- The value of the extrinsic commits to the payload and nothing else.
  pub Inspected-Hoare :
      (x : ℕ) (payload : String) (nonce : ℤ) (era : Entries) (l : Log)
      → Hoare I
          (At l)
          (inspect n k x payload nonce era)
          (λ _ s. Inspected n.equals payload x nonce era l s.world.steps)
  unfolding inspect
  Inspected-Hoare x payload nonce era l =
      Hoare-bind (Hoare-step tolerant l (extrinsic_read x) _ λ r. refl) λ o.
        Hoare-bind (Hoare-ensures (shaped-dict envelope_keys _ o)) λ v. given λ (is_dict, shape).
          Hoare-bind (Hoare-instead _ (Hoare-lift _)) λ account. given λ _.
            Hoare-bind (Hoare-ensures (check_envelope-IsEnvelope n.equals _ payload nonce era v))
              λ _. given λ envelope.
                Hoare-bind (Hoare-quiet tolerant _ λ J q. ask-Keeps q _) λ data_text.
                  Hoare-refuse _ _ _ λ _.
                    Hoare-bind (Hoare-instead _ (Hoare-quiet tolerant _ λ J q. ask-Keeps q _))
                      λ raw. Hoare-refuse _ _ _ λ _. Hoare-pure _ λ s q. record {
                        value = o;
                        entries = v;
                        account = "0x" <> account;
                        log = q;
                        mapping = is_dict;
                        shape = shape;
                        envelope = envelope;
                      }
