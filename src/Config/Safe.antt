-- ===== src/Config/Safe.antt =====
-- config.py: what a configuration that was loaded cannot do.
use mt.Base.{
  String, Bool, true, false, not, ◌&&◌, ◌≡◌, Option, none, some, ◌≢◌, pos, int_eqb-eq, before,
  starts_with, ◌==◌, eq_iff, not-false, arith,
}
use mt.Json.{Python}
use mt.Errors.{ok}
use mt.Errors.Ensures.{
  Ensures, Ensures-ok, Ensures-known, Ensures-bind, Ensures-refuse, Ensures-refuse_last,
}
use mt.Config.{Config}
use mt.Config.Environment.{Env, Paths}
use mt.Config.Validate.{
  is_none, check_identity, check_source_policy, validate, transaction_authorization,
}
use mt.Config.Source.{source_for}
use mt.Config.Load.{from_env}
use mt.Config.Rendered.{IsSource, source_for-IsSource}

-- What signs a transaction is the one approved wallet, network and release.
pub record IsLive (c : Config) : Type 0 where
  pub network : c.network ≡ "finney"
  pub endpoint : c.endpoint ≡ ""
  pub authorization : c.transaction_authorization ≡ transaction_authorization
  pub scheme : before b':' c.source_template ≡ "https"
  pub token : c.github_token_file ≢ none
  pub verified : c.allow_unverified_upstream ≡ false
  pub coordinated : c.allow_chain_schedule_fallback ≡ false

pub record IsSafe (c : Config) : Type 0 where
  pub netuid : c.netuid ≡ pos 92
  pub wallet_name : c.wallet_name ≡ "you-cold"
  pub wallet_hotkey : c.wallet_hotkey ≡ "you-hot1"
  pub uid : c.expected_uid ≡ pos 32
  pub anchored : c.require_anchored_coordinator ≡ true
  pub url : starts_with c.coordinator_url "https://" ≡ true
  pub probe : (s : String) × (source_for c (pos 0) "5ConfigProbe" ≡ ok s) × IsSource s
  pub live : c.dry_run ≡ false → IsLive c

eq-text : (s t : String) → not (s == t) ≡ false → s ≡ t
eq-text s t e = (eq_iff s t).0 (not-false _ e)

-- A test that only a live configuration must pass.
live-text : (dry : Bool) (s t : String) → (not dry && not (s == t)) ≡ false → dry ≡ false → s ≡ t
live-text dry s t e live = eq-text s t (ground arith)

record Identity (c : Config) : Type 0 where
  netuid : c.netuid ≡ pos 92
  wallet_name : c.wallet_name ≡ "you-cold"
  wallet_hotkey : c.wallet_hotkey ≡ "you-hot1"
  uid : c.expected_uid ≡ pos 32
  network : c.dry_run ≡ false → c.network ≡ "finney"
  endpoint : c.dry_run ≡ false → c.endpoint ≡ ""

check_identity-Identity : (c : Config) → Ensures (λ _. Identity c) (check_identity c)
unfolding check_identity
check_identity-Identity c = Ensures-refuse _ _ _ λ t1. Ensures-refuse _ _ _ λ t2.
    Ensures-refuse _ _ _ λ t3. Ensures-refuse _ _ _ λ t4. Ensures-refuse _ _ _ λ t5.
      Ensures-refuse _ _ _ λ t6. Ensures-refuse_last _ _ _ λ t7. record {
        netuid = int_eqb-eq _ _ (not-false _ t1);
        wallet_name = eq-text _ _ t5;
        wallet_hotkey = eq-text _ _ t6;
        uid = int_eqb-eq _ _ (not-false _ t7);
        network = live-text _ _ _ t2;
        endpoint = live-text _ _ _ t3;
      }

record Policy (c : Config) : Type 0 where
  probe : (s : String) × (source_for c (pos 0) "5ConfigProbe" ≡ ok s) × IsSource s
  anchored : c.require_anchored_coordinator ≡ true
  authorization : c.dry_run ≡ false → c.transaction_authorization ≡ transaction_authorization
  scheme : c.dry_run ≡ false → before b':' c.source_template ≡ "https"
  token : c.dry_run ≡ false → c.github_token_file ≢ none
  verified : c.dry_run ≡ false → c.allow_unverified_upstream ≡ false
  coordinated : c.dry_run ≡ false → c.allow_chain_schedule_fallback ≡ false

token-given :
    (o : Option String) (https dry : Bool)
    → https ≡ true
    → (https && is_none o && not dry) ≡ false
    → dry ≡ false
    → o ≢ none
token-given none https dry s t live e = ground arith
token-given (some x) https dry s t live e = cc

check_source_policy-Policy : (c : Config) → Ensures (λ _. Policy c) (check_source_policy c)
unfolding check_source_policy
check_source_policy-Policy c = Ensures-refuse _ _ _ λ t1. Ensures-bind λ probe p.
    Ensures-refuse _ _ _ λ t2. Ensures-refuse _ _ _ λ t3. Ensures-refuse _ _ _ λ t4.
      Ensures-refuse _ _ _ λ t5. Ensures-refuse _ _ _ λ t6. Ensures-refuse _ _ _ λ t7.
        Ensures-refuse _ _ _ λ t8. Ensures-refuse_last _ _ _ λ t9. record {
          probe = (probe, p, source_for-IsSource c (pos 0) "5ConfigProbe" probe p);
          anchored = not-false _ t8;
          authorization = live-text _ _ _ t3;
          scheme = live-text _ _ _ t7;
          token = λ live.
              token-given c.github_token_file (before b':' c.source_template == "https") c.dry_run
                ((eq_iff _ _).1 (live-text _ _ _ t7 live)) t4 live;
          verified = λ live. ground arith;
          coordinated = λ live. ground arith;
        }

validate-IsSafe : (c : Config) → Ensures (λ _. IsSafe c) (validate c)
unfolding validate
validate-IsSafe c = Ensures-bind λ u e. Ensures-bind λ v _. Ensures-refuse _ _ _ λ t.
    Ensures-known λ w f.
      let i = (check_identity-Identity c).holds u e in
      let p = (check_source_policy-Policy c).holds w f in
      record {
        netuid = i.netuid;
        wallet_name = i.wallet_name;
        wallet_hotkey = i.wallet_hotkey;
        uid = i.uid;
        anchored = p.anchored;
        url = not-false _ t;
        probe = p.probe;
        live = λ live. record {
          network = i.network live;
          endpoint = i.endpoint live;
          authorization = p.authorization live;
          scheme = p.scheme live;
          token = p.token live;
          verified = p.verified live;
          coordinated = p.coordinated live;
        };
      }

-- A configuration that was loaded names subnet 92, the one wallet and uid 32, has the anchored
-- coordinator behind HTTPS, and a template that renders for round 0 and the probe's hotkey to a release
-- of the authorized repository or to a safe prefix in a bucket. Where it is live, it signs on the main
-- network without a custom endpoint, with the exact zero-cost authorization, a template with the scheme
-- https, a token file, and neither an unverified upstream nor the schedule of the chain as a fallback.
pub from_env-IsSafe :
    (py : Python) (upper : String → String) (paths : Paths) (env : Env) (c : Config)
    → from_env py upper paths env ≡ ok c
    → IsSafe c
unfolding from_env
from_env-IsSafe py upper paths env c = (loaded).holds c
  where
    loaded : Ensures IsSafe (from_env py upper paths env)
    loaded = Ensures-bind λ d _. Ensures-bind λ u e. Ensures-ok ((validate-IsSafe d).holds u e)
