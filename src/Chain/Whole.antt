-- ===== src/Chain/Whole.antt =====
-- backend.py: the whole of `_submit_authorized_commitment` up to the submission.
use mt.Base.{ℕ, String}
use mt.System.{Sys, ◌>>=◌, ◌>>◌}
use mt.System.Rules.{
  Keeps, Keeps-lift, Keeps-bind, Keeps-raise_if, Keeps-attempt, Keeps-raise, Keeps-reraise,
  Keeps-if, Hoare, Hoare-bind,
}
use mt.Errors.{is_authorization_refused}
use mt.Config.{Config}
use mt.Chain.Node.{Node, Session, Track}
use mt.Chain.Quote.{check_call, check_deposits, first_estimate}
use mt.Chain.Submit.{refresh, sign, recheck, submit, receipt_charge, check_receipt, admitted}
use mt.Chain.Rules.{Log, At, IsTolerant, IsQuiet, given, ask-Keeps, live-Keeps, registration-Keeps}
use mt.Chain.Trail.{Authorized}
use mt.Chain.Stages.{opened, exists, check_call-Hoare, Deposited-Hoare, Quoted-Hoare}
use mt.Chain.Rechecks.{refresh-Hoare, sign-Hoare, recheck-Hoare}

module _ {W : Type 0} {J : Sys (Track W) → Type 0} (quiet : IsQuiet J) (n : Node W) (k : Session)
    (c : Config) where
  pub admitted-Keeps : (payload : String) → Keeps J (admitted n k c payload)
  unfolding admitted
  admitted-Keeps payload = Keeps-bind (live-Keeps quiet n k c) λ _.
      Keeps-bind (Keeps-raise_if _ _ _) λ _. Keeps-bind (registration-Keeps quiet n k c) λ _.
        Keeps-bind (Keeps-raise_if _ _ _) λ _.
          Keeps-bind (Keeps-raise_if _ _ _) λ _. Keeps-bind (Keeps-raise_if _ _ _) λ _. Keeps-lift _

  charge-Keeps : (hash : String) (r : ℕ) → Keeps J (receipt_charge n k c hash r)
  unfolding receipt_charge
  charge-Keeps hash r =
      Keeps-attempt
        (Keeps-bind (ask-Keeps quiet _) λ h. Keeps-bind (ask-Keeps quiet _) λ b.
          Keeps-bind (ask-Keeps quiet _) λ f. Keeps-bind (Keeps-raise_if _ _ _) λ _.
            Keeps-bind (Keeps-raise_if _ _ _) λ _. Keeps-bind (Keeps-raise_if _ _ _) λ _.
              Keeps-bind (ask-Keeps quiet _) λ s.
                Keeps-bind (Keeps-raise_if _ _ _)
                  λ _. Keeps-bind (ask-Keeps quiet _) λ o. Keeps-lift _)
        λ e.
          Keeps-if (is_authorization_refused e.kind) (λ _. Keeps-reraise e) (λ _. Keeps-raise _ _)

  pub receipt-Keeps : (hash : String) (r : ℕ) → Keeps J (check_receipt n k c hash r)
  unfolding check_receipt
  receipt-Keeps hash r = Keeps-bind (charge-Keeps hash r) λ _. Keeps-raise_if _ _ _

module _ {W : Type 0} (n : Node W) (k : Session) (c : Config) (payload : String)
    {I : Sys (Track W) → Type 0} (tolerant : IsTolerant I) where
  -- A submission with its authorization behind it, whatever comes after.
  pub Authorized-Hoare :
      {Q : Unit {0} → Sys (Track W) → Type 0} (address head : String) (call : ℕ) (base : Log)
      → ((x : ℕ) (hash : String)
          → Hoare I
              (λ s. Authorized n.equals payload base x s.world.steps)
              (do r ← submit n k c x; check_receipt n k c hash r)
              Q)
      → Hoare I
          (At base)
          (do
            check_call n k call payload
                "composed transaction differs from Commitments.set_commitment(netuid=92)"
            check_deposits n k head
            (nonce, era) ← first_estimate n k address call payload
            refresh n k c address call nonce era
            (x, hash) ← sign n k c call payload nonce era
            recheck n k c x address call payload nonce era
            r ← submit n k c x
            check_receipt n k c hash r)
          Q
  Authorized-Hoare address head call base after =
      Hoare-bind (check_call-Hoare n k tolerant call payload _ base) λ _. exists λ v.
        given λ is_call.
          Hoare-bind (Deposited-Hoare n k tolerant payload head call base v is_call) λ _.
            opened λ l deposited.
              Hoare-bind (Quoted-Hoare n k tolerant payload address base call l deposited)
                λ (nonce, era). opened λ q quoted.
                  Hoare-bind (refresh-Hoare n k c tolerant address call nonce era q) λ _.
                    opened λ f refreshed.
                      Hoare-bind (sign-Hoare n k c tolerant payload call nonce era f) λ (x, hash).
                        opened λ g inspected.
                          Hoare-bind
                            (recheck-Hoare n k c tolerant address payload base call nonce era x g
                              (record {
                                quote_log = q;
                                refresh_log = f;
                                quoted = quoted;
                                refreshed = refreshed;
                                inspected = inspected;
                              }))
                            λ _. after x hash
