-- ===== src/Chain/Backend.antt =====
-- backend.py: `MicrotensorBackend` as the backend of the controller. The world counts the steps of the
-- signing; what is not modelled moves the rest of the world only.
use mt.Base.{String, Bool, Option, ℤ, []}
use mt.Json.{Fields}
use mt.Errors.{Result}
use mt.Models.{PreflightSnapshot, PackagedArtifact}
use mt.System.{missing, Host}
use mt.Config.{Config}
use mt.Controller.Setup.{Backend}
use mt.Chain.Node.{Node, Session, Track, C}
use mt.Chain.Policy.{assert_registered}
use mt.Chain.Publish.{Package, publish}
use mt.Chain.Client.{
  Client, block, chain_round, verify_round_anchor, validate_round, verify_provenance,
  verify_on_chain, close,
}

-- What the backend holds at a moment, and the methods that deal with files, manifests and releases.
-- `without_client` is the world after `self._client = None`.
pub record Upstream (W : Type 0) : Type 0 where
  pub session : W → Session
  pub without_client : W → W
  pub preflight : W → Result PreflightSnapshot × W
  pub validate_binding : W → Result String × W
  pub load_local : W → Result (Option PackagedArtifact) × W
  pub package_round : ℤ → String → W → Result PackagedArtifact × W
  pub upload : PackagedArtifact → W → Result (Unit {0}) × W
  pub verify_source : PackagedArtifact → Bool → W → Result (Unit {0}) × W
  pub fetch_round : W → Result Fields × W

module _ {W A : Type 0} where
  -- What does not sign leaves the steps.
  unfoldable pub on_outer : (W → A × W) → Track W → A × Track W
  on_outer f w = let (a, o) = f w.outer in (a, record w { outer = o })

  -- A method, with what the backend holds when it is called.
  unfoldable pub as_method : (W → Session) → (Session → C W A) → Track W → Result A × Track W
  as_method session m w =
      let (r, s) = m (session w.outer) (record {
        files = record {
          status = missing;
          health = missing;
          rank = missing;
          authorization = missing;
          pending = missing;
        };
        world = w;
        events = [];
      }) in
      (r, s.world)

-- The services of the process beside the steps.
unfoldable pub beside : {W : Type 0} → Host W → Host (Track W)
beside h = record {
  py = h.py;
  redactor = h.redactor;
  now = on_outer h.now;
  utc_timestamp = h.utc_timestamp;
  pid = h.pid;
  class_name = h.class_name;
  effect = on_outer h.effect;
  stop_is_set = on_outer h.stop_is_set;
  stop_wait = λ t. on_outer (h.stop_wait t);
  monitor_start = λ t w. record w { outer = h.monitor_start t w.outer };
  monitor_stop = λ w. record w { outer = h.monitor_stop w.outer };
}

-- `MicrotensorBackend`
unfoldable pub microtensor :
    {W : Type 0} → Node W → Client W → Package W → Upstream W → Config → Backend (Track W)
microtensor n v p u c = record {
  do_preflight = on_outer u.preflight;
  do_block = as_method u.session λ k. block v k;
  do_chain_round = λ b. as_method u.session λ k. chain_round v c b;
  do_verify_round_anchor = λ r. as_method u.session λ k. verify_round_anchor n v k c r;
  do_validate_round = λ r. as_method u.session λ k. validate_round v c r;
  do_assert_registered = as_method u.session λ k. assert_registered n k c;
  do_validate_binding = on_outer u.validate_binding;
  do_load_local = on_outer u.load_local;
  do_package = λ b t. on_outer (u.package_round b t);
  do_upload = λ a. on_outer (u.upload a);
  do_validate_commitment = λ a. on_outer (p.validate_commitment a);
  do_verify_source = λ a full. on_outer (u.verify_source a full);
  do_verify_provenance = λ a b. as_method u.session λ k. verify_provenance v k c a b;
  do_publish = λ a. as_method u.session λ k. publish n k c p a;
  do_verify_on_chain = λ a. as_method u.session λ k. verify_on_chain v k c p a;
  do_close = as_method u.session λ k. close v k u.without_client;
  fetch_round = on_outer u.fetch_round;
}
