-- ===== src/Chain/Confirmed.antt =====
-- backend.py: what the submission of a commitment that returned has done.
use mt.Base.{
  ℕ, String, Bool, true, false, ◌&&◌, ◌||◌, not, ◌≡◌, refl, ap, ◌∙◌, pos, int_eqb, int_eqb-eq,
  not-false, ◌∷◌, ◌==◌, eq_iff, arith,
}
use mt.Errors.{Result, ok}
use mt.Errors.Ensures.{Ensures, Ensures-bind, Ensures-refuse, Ensures-refuse_last}
use mt.System.{Sys}
use mt.System.Rules.{
  Keeps-raise, Hoare, Any, Hoare-bind, Hoare-refuse, Hoare-returned_from, Hoare-kept,
}
use mt.Config.{Config}
use mt.Config.Validate.{transaction_authorization}
use mt.Chain.Checks.{authorized_hotkey, check_live}
use mt.Chain.Node.{Node, Session, Track, submitted}
use mt.Chain.Policy.{assert_live}
use mt.Chain.Submit.{submit, admitted, submit_authorized_commitment}
use mt.Chain.Rules.{
  Log, At, IsTolerant, Hoare-quiet, Hoare-noted, Hoare-instead, Hoare-ensures, Hoare-lift,
  Hoare-after, given, gate-Keeps, place-Keeps, registration-Keeps,
}
use mt.Chain.Trail.{Authorized}
use mt.Chain.Stages.{opened, composed-Hoare}
use mt.Chain.Whole.{receipt-Keeps, Authorized-Hoare}

-- The configuration and the loaded hotkey are the authorized ones.
pub record IsPermitted (c : Config) (loaded : Result String) : Type 0 where
  pub live : c.dry_run ≡ false
  pub authorization : c.transaction_authorization ≡ transaction_authorization
  pub netuid : c.netuid ≡ pos 92
  pub uid : c.expected_uid ≡ pos 32
  pub wallet_name : c.wallet_name ≡ "you-cold"
  pub wallet_hotkey : c.wallet_hotkey ≡ "you-hot1"
  pub hotkey : loaded ≡ ok authorized_hotkey
  pub network : c.network ≡ "finney"
  pub endpoint : c.endpoint ≡ ""

text-at : (s t : String) → (s == t) ≡ true → s ≡ t
text-at s t e = (eq_iff s t).0 e

split_or : (a b : Bool) → (not a || not b) ≡ false → (a ≡ true) × (b ≡ true)
split_or a b e = (ground arith, ground arith)

split_and : (a b : Bool) → not (a && b) ≡ false → (a ≡ true) × (b ≡ true)
split_and a b e = (ground arith, ground arith)

check_live-IsPermitted :
    (c : Config) (hotkey : Result String)
    → Ensures (λ _. IsPermitted c hotkey) (check_live c hotkey)
unfolding check_live
check_live-IsPermitted c hotkey = Ensures-refuse _ _ _ λ dry. Ensures-refuse _ _ _ λ a.
    Ensures-refuse _ _ _ λ i. Ensures-refuse _ _ _ λ w. Ensures-bind λ h loaded.
      Ensures-refuse _ _ _ λ e. Ensures-refuse_last _ _ _ λ n.
        permitted dry (text-at _ _ (not-false _ a))
          (split_or (int_eqb c.netuid (pos 92)) (int_eqb c.expected_uid (pos 32)) i)
          (split_and (c.wallet_name == "you-cold") (c.wallet_hotkey == "you-hot1") w)
          (loaded ∙ ap ok (text-at _ _ (not-false _ e)))
          (split_or (c.network == "finney") (c.endpoint == "") n)
  where
    permitted :
        c.dry_run ≡ false
        → c.transaction_authorization ≡ transaction_authorization
        → (int_eqb c.netuid (pos 92) ≡ true) × (int_eqb c.expected_uid (pos 32) ≡ true)
        → ((c.wallet_name == "you-cold") ≡ true) × ((c.wallet_hotkey == "you-hot1") ≡ true)
        → hotkey ≡ ok authorized_hotkey
        → ((c.network == "finney") ≡ true) × ((c.endpoint == "") ≡ true)
        → IsPermitted c hotkey
    permitted live authorization ids wallet loaded net = record {
      live = live;
      authorization = authorization;
      netuid = int_eqb-eq _ _ ids.0;
      uid = int_eqb-eq _ _ ids.1;
      wallet_name = text-at _ _ wallet.0;
      wallet_hotkey = text-at _ _ wallet.1;
      hotkey = loaded;
      network = text-at _ _ net.0;
      endpoint = text-at _ _ net.1;
    }

module _ {W : Type 0} (n : Node W) (k : Session) (c : Config) (payload : String) where
  pub tolerant : IsTolerant {W = W} Any
  tolerant = record { quiet = λ s o i. tt; steps = λ s o e h i. tt }

  -- What `submit_authorized_commitment` leaves on the record when it returns.
  pub record IsSubmitted (base l : Log) : Type 0 where
    pub permitted : IsPermitted c k.hotkey
    pub extrinsic : ℕ
    pub receipt : ℕ
    pub before : Log
    pub last : l ≡ submitted extrinsic (ok receipt) ∷ before
    pub authorized : Authorized n.equals payload base extrinsic before

  live-Hoare :
      (l : Log) → Hoare Any (At l) (assert_live n k c) (λ _ s. IsPermitted c k.hotkey × At l s)
  unfolding assert_live
  live-Hoare l =
      Hoare-bind (Hoare-quiet tolerant l λ J q. gate-Keeps q n k c _ λ t. Keeps-raise _ _) λ _.
        Hoare-bind (Hoare-ensures (check_live-IsPermitted c k.hotkey)) λ _. given λ permitted.
          Hoare-after (λ _ s q. (permitted, q)) (Hoare-quiet tolerant l λ J q. place-Keeps q n k c)

  admitted-Hoare :
      (l : Log) → Hoare Any (At l) (admitted n k c payload) (λ _ s. IsPermitted c k.hotkey × At l s)
  unfolding admitted
  admitted-Hoare l = Hoare-bind (live-Hoare l) λ _. given λ permitted. Hoare-refuse _ _ _ λ _.
      Hoare-bind (Hoare-quiet tolerant l λ J q. registration-Keeps q n k c) λ _.
        Hoare-refuse _ _ _ λ _.
          Hoare-refuse _ _ _
            λ _. Hoare-refuse _ _ _ λ _. Hoare-after (λ _ s q. (permitted, q.1)) (Hoare-lift _)

  IsSubmitted-Hoare :
      (base : Log) (x : ℕ)
      → IsPermitted c k.hotkey
      → Hoare Any
          (λ s. Authorized n.equals payload base x s.world.steps)
          (submit n k c x)
          (λ r s. IsSubmitted base s.world.steps)
  unfolding submit
  IsSubmitted-Hoare base x permitted = opened λ l authorized. Hoare-instead _ (
      Hoare-after
        (λ r s q. record {
          permitted = permitted;
          extrinsic = x;
          receipt = r;
          before = l;
          last = q;
          authorized = authorized;
        })
        (Hoare-noted l (submitted x) (n.submit_extrinsic x) λ s o r i. tt))

  pub submission-Hoare :
      (base : Log)
      → Hoare Any
          (At base)
          (submit_authorized_commitment n k c payload)
          (λ _ t. IsSubmitted base t.world.steps)
  unfolding submit_authorized_commitment
  submission-Hoare base = Hoare-bind (admitted-Hoare base) λ address. given λ permitted.
      Hoare-bind (composed-Hoare n k tolerant payload base) λ (head, call).
        Authorized-Hoare n k c payload tolerant address head call base λ x hash.
          Hoare-bind (IsSubmitted-Hoare base x permitted)
            λ r. Hoare-kept (receipt-Keeps (λ u o j. j) n k c hash r)

  -- When the submission of a commitment returns, the configuration and the hotkey are the authorized
  -- ones, and the steps that it made are one authorization and behind it one submission, which
  -- returned.
  pub submit-IsSubmitted :
      (s t : Sys (Track W))
      → submit_authorized_commitment n k c payload s ≡ (ok tt, t)
      → IsSubmitted s.world.steps t.world.steps
  submit-IsSubmitted s t e = Hoare-returned_from (submission-Hoare s.world.steps) refl e
