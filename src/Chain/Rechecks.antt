-- ===== src/Chain/Rechecks.antt =====
-- backend.py: what is read again before the signature and before the submission.
use mt.Base.{ℕ, String, ◌≡◌, refl, some, ℤ, not-false, ◌∷◌}
use mt.Errors.{ok}
use mt.System.{Sys}
use mt.System.Rules.{Hoare, Hoare-bind, Hoare-pure, Hoare-refuse}
use mt.Config.{Config}
use mt.Chain.Objects.{Obj, int, Entries, raw_of}
use mt.Chain.Node.{Node, Session, Track, index_read, estimated, signed}
use mt.Chain.Submit.{unchanged, refresh, sign, recheck}
use mt.Chain.Facts.{amount-at, check_fee-IsFree}
use mt.Chain.Rules.{
  Log, At, IsTolerant, given, Hoare-or_refused, Hoare-quiet, Hoare-step, Hoare-after, Hoare-ensures,
  Hoare-raise_if, head-Keeps, registration-Keeps,
}
use mt.Chain.Trail.{Again, Inspected, Signed, Authorized}
use mt.Chain.Stages.{exists, check_call-Hoare, read_index-Hoare, estimate-Hoare, Inspected-Hoare}

module _ {W : Type 0} (n : Node W) (k : Session) (c : Config) {I : Sys (Track W) → Type 0}
    (tolerant : IsTolerant I) where
  -- The registration, the chain and the nonce were read again.
  unchanged-Hoare :
      (address : String) (nonce : ℤ) (label text changed : String) (l : Log)
      → Hoare I
          (At l)
          (unchanged n k c address nonce label text changed)
          (λ _ s. (o : Obj) × ((raw_of o ≡ some (int nonce)) × At (index_read (ok o) ∷ l) s))
  unfolding unchanged
  unchanged-Hoare address nonce label text changed l =
      Hoare-bind (Hoare-quiet tolerant l λ J q. registration-Keeps q n k c) λ _.
        Hoare-bind (Hoare-quiet tolerant l λ J q. head-Keeps q n) λ _.
          Hoare-bind (read_index-Hoare n k tolerant address label text l) λ i. exists λ o.
            given λ index.
              Hoare-after (λ _ s q. (o, (amount-at o i nonce index q.0, q.1)))
                (Hoare-raise_if _ _ _)

  pub refresh-Hoare :
      (address : String) (call : ℕ) (nonce : ℤ) (era : Entries) (l : Log)
      → Hoare I
          (At l)
          (refresh n k c address call nonce era)
          (λ _ s. Again n.equals call nonce era l s.world.steps)
  unfolding refresh
  refresh-Hoare address call nonce era l = Hoare-bind (unchanged-Hoare address nonce _ _ _ l) λ _.
      exists λ o. given λ index.
        Hoare-bind (estimate-Hoare n k tolerant _ call era nonce _) λ (p, e).
          Hoare-bind (Hoare-ensures (check_fee-IsFree _ _ _ p)) λ _. given λ free.
            Hoare-after
              (λ _ s q. record {
                index = o;
                payment = p;
                echoed = e;
                log = q.1;
                nonce_at = index;
                free = free;
                era_same = not-false _ q.0;
              })
              (Hoare-raise_if _ _ _)

  pub sign-Hoare :
      (payload : String) (call : ℕ) (nonce : ℤ) (era : Entries) (l : Log)
      → Hoare I (At l) (sign n k c call payload nonce era) (λ r s.
        Inspected n.equals payload r.0 nonce era (signed call era nonce (ok r.0) ∷ l) s.world.steps)
  unfolding sign
  sign-Hoare payload call nonce era l =
      Hoare-bind (Hoare-or_refused _ (Hoare-step tolerant l (signed call era nonce) _ λ r. refl))
        λ x.
          Hoare-bind (Inspected-Hoare n k tolerant x payload nonce era _)
            λ hash. Hoare-pure _ λ s q. q

  -- Everything was read again behind the signature.
  pub recheck-Hoare :
      (address payload : String) (base : Log) (call : ℕ) (nonce : ℤ) (era : Entries) (x : ℕ)
      (l : Log)
      → Signed n.equals payload base call nonce era x l
      → Hoare I
          (At l)
          (recheck n k c x address call payload nonce era)
          (λ _ s. Authorized n.equals payload base x s.world.steps)
  unfolding recheck
  recheck-Hoare address payload base call nonce era x l signature =
      Hoare-bind (unchanged-Hoare address nonce _ _ _ l) λ _. exists λ o. given λ index.
        Hoare-bind (estimate-Hoare n k tolerant _ call era nonce _) λ (p, e).
          Hoare-bind (Hoare-ensures (check_fee-IsFree _ _ _ p)) λ _. given λ free.
            Hoare-refuse _ _ _ λ era_same.
              Hoare-bind (check_call-Hoare n k tolerant call payload _ _) λ _. exists λ v.
                given λ is_call.
                  Hoare-after
                    (λ hash s q. record {
                      call = call;
                      nonce = nonce;
                      era = era;
                      sign_log = l;
                      recheck_log = estimated call era nonce (ok (p, e)) ∷ index_read (ok o) ∷ l;
                      value = v;
                      signature = signature;
                      rechecked = record {
                        index = o;
                        payment = p;
                        echoed = e;
                        log = refl;
                        nonce_at = index;
                        free = free;
                        era_same = not-false _ era_same;
                      };
                      unchanged = is_call;
                      inspected = q;
                    })
                    (Inspected-Hoare n k tolerant x payload nonce era _)
