-- ===== src/Tests/Signing.antt =====
-- The theorems about the submission of a commitment, with a node that answers what is authorized.
mod Composing
use mt.Base.{
  ℕ, ◌+◌, String, ◌<>◌, Bool, true, false, ◌≡◌, refl, Option, none, some, List, [], ◌∷◌, ℤ, pos,
}
use mt.Errors.{Result, ok}
use mt.System.{Sys}
use mt.Config.{Config}
use mt.Config.Validate.{transaction_authorization}
use mt.Chain.Checks.{authorized_hotkey, genesis_hash, runtime_code_hash}
use mt.Chain.Objects.{Obj, null, bool, int, str, list, dict, Entries, end, entry}
use mt.Chain.Envelope.{call_args, expected_call}
use mt.Chain.Node.{Node, Session, Track, Step}
use mt.Chain.Submit.{submit_authorized_commitment}
use mt.Chain.Trail.{Costless}
use mt.Chain.Costless.{submit-Costless}
use mt.Chain.Confirmed.{IsSubmitted, submit-IsSubmitted}
use mt.Models.{PackagedArtifact, PublishReceipt}
use mt.Chain.Publish.{Package, publish}
use mt.Chain.Receipt.{IsPublished, publish-IsPublished}
use mt.Tests.{clean, config}

abbrev live : Config
live = record (config false) {
  v030_activation_block = some (pos 1);
  transaction_authorization = transaction_authorization;
  source_template = "https:github.com/vandungtech/mt92/releases/download/round-{round}";
}

abbrev payload : String
payload = "commitment"

abbrev zeros : String
zeros = "0000000000000000000000000000000000000000000000000000000000000000"

abbrev hash : String
hash = "0x" <> zeros

abbrev era : Entries
era = entry "period" (int (pos 128)) (entry "current" (int (pos 5)) end)

abbrev free : Obj
free = dict (entry "partial_fee" (int (pos 0)) end)

abbrev envelope : Entries
envelope = entry "account_id" (str "0xaa") (
    entry "address" (str "0xaa") (
      entry "asset_id" (dict (entry "tip" (int (pos 0)) (entry "asset_id" null end))) (
        entry "call" (dict (expected_call payload)) (
          entry "call_args" (dict (call_args payload)) (
            entry "call_function" (str "set_commitment") (
              entry "call_module" (str "Commitments") (
                entry "era" (dict era) (
                  entry "mode" (str "Disabled") (
                    entry "nonce" (int (pos 7)) (
                      entry "signature" (str ("0x" <> (zeros <> zeros))) (
                        entry "signature_version" (int (pos 1))
                          (entry "tip" (int (pos 0)) end))))))))))))

abbrev given : {A : Type 0} → A → ℕ → Result A × ℕ
given a w = (ok a, w)

-- The world counts the signatures and submissions.
abbrev node : Node ℕ
node = record {
  lower = λ s. s;
  equals = λ a b. false;
  observer = λ w. (none, w);
  dependencies = given tt;
  uid_of = λ h. given (pos 32);
  client_netuid = given (int (pos 92));
  block_hash = λ n. given genesis_hash;
  chain_head = given hash;
  runtime_info = λ h.
      given
        (dict (entry "specVersion" (int (pos 452)) (entry "transactionVersion" (int (pos 1)) end)));
  storage_hash = λ k h. given (dict (entry "result" (str runtime_code_hash) end));
  compose_call = λ m f a h. given 4;
  call_value = λ c. given (dict (expected_call payload));
  get_constant = λ m name h. given (int (pos 0));
  next_index = λ a. given (int (pos 7));
  payment_info = λ c e n. given (free, era);
  create_signed = λ c e n w. (ok 5, w + 1);
  extrinsic_value = λ x. given (dict envelope);
  extrinsic_data = λ x. given (some "0x01");
  extrinsic_hash = λ x. given zeros;
  submit_extrinsic = λ x w. (ok 6, w + 1);
  receipt_hash = λ r. given hash;
  receipt_block = λ r. given hash;
  receipt_finalized = λ r. given (bool true);
  receipt_success = λ r. given (bool true);
  receipt_fee = λ r. given (int (pos 0));
}

abbrev session : Session
session = record {
  hotkey = ok authorized_hotkey;
  has_client = true;
  has_wallet = true;
  has_substrate = true;
  signer = some authorized_hotkey;
  public_key = ok "aa";
}

abbrev unsigned : Sys (Track ℕ)
unsigned = record { files = clean.files; world = record { outer = 0; steps = [] }; events = [] }

abbrev outcome : Result (Unit {0}) × Sys (Track ℕ)
outcome = submit_authorized_commitment node session live payload unsigned

submits_once : (outcome ≡ (ok tt, outcome.1)) × (outcome.1.world.outer ≡ 2)
unfolding mt.Base.after mt.Base.any_char mt.Base.before mt.Base.contains mt.Base.ends_with_lower
    mt.Base.eq_lower mt.Base.has_char mt.Base.has_text mt.Base.hex_tag mt.Base.is_space
    mt.Base.lower_code mt.Base.show_int mt.Base.split_at mt.Chain.Checks.check_live
    mt.Chain.Checks.check_runtime mt.Chain.Checks.code_result mt.Chain.Checks.code_text
    mt.Chain.Checks.is_authorized_place mt.Chain.Envelope.call_args mt.Chain.Envelope.check_asset
    mt.Chain.Envelope.check_envelope mt.Chain.Envelope.expected_call mt.Chain.Envelope.shaped
    mt.Chain.Fee.check_era mt.Chain.Fee.check_fee mt.Chain.Fee.check_signer mt.Chain.Fee.fee_of
    mt.Chain.Node.ask mt.Chain.Node.else_refused mt.Chain.Node.instead mt.Chain.Node.or_refused
    mt.Chain.Node.step mt.Chain.Objects.all_in mt.Chain.Objects.authorization_integer
    mt.Chain.Objects.has_keys mt.Chain.Objects.item mt.Chain.Objects.keys mt.Chain.Objects.lookup
    mt.Chain.Objects.raw_of mt.Chain.Objects.same mt.Chain.Objects.size mt.Chain.Policy.assert_live
    mt.Chain.Policy.assert_registered mt.Chain.Policy.assert_registration
    mt.Chain.Policy.authorized_chain_head mt.Chain.Policy.check_place mt.Chain.Policy.gate_refused
    mt.Chain.Policy.identity_read mt.Chain.Policy.observe_gate mt.Chain.Quote.check_call
    mt.Chain.Quote.check_deposits mt.Chain.Quote.composed mt.Chain.Quote.deposit
    mt.Chain.Quote.estimate mt.Chain.Quote.first_estimate mt.Chain.Quote.inspect
    mt.Chain.Quote.read_index mt.Chain.Submit.admitted mt.Chain.Submit.check_receipt
    mt.Chain.Submit.receipt_charge mt.Chain.Submit.recheck mt.Chain.Submit.refresh
    mt.Chain.Submit.sign mt.Chain.Submit.submit mt.Chain.Submit.submit_authorized_commitment
    mt.Chain.Submit.unchanged mt.Config.Source.any_dots mt.Config.Source.check_bucket
    mt.Config.Source.check_release mt.Config.Source.check_source mt.Config.Source.coordinates_of
    mt.Config.Source.github_release_coordinates mt.Config.Source.is_bucket mt.Config.Source.is_owner
    mt.Config.Source.is_repo mt.Config.Source.is_tag mt.Config.Source.slug
    mt.Config.Source.source_coordinates mt.Config.Source.source_for mt.Config.Source.tail_of
    mt.Config.Template.format mt.Config.Template.pieces mt.Config.Template.render
    mt.Config.uses_signed_v030 mt.Errors.refuse_if mt.Errors.want mt.Errors.◌>>=◌ mt.System.attempt
    mt.System.lift mt.System.observe mt.System.outside mt.System.pure mt.System.raise
    mt.System.raise_if mt.System.reraise mt.System.◌>>=◌
submits_once = (refl, refl)

submit-Costless_example : Costless node.equals payload outcome.1.world.steps
submit-Costless_example = submit-Costless node session live payload unsigned tt

submit-IsSubmitted_example : IsSubmitted node session live payload [] outcome.1.world.steps
submit-IsSubmitted_example =
    submit-IsSubmitted node session live payload unsigned outcome.1 submits_once.0

abbrev packed : PackagedArtifact
packed = record {
  round_index = pos 3;
  source = "https:github.com/vandungtech/mt92/releases/download/round-3";
  hotkey = authorized_hotkey;
  manifest_digest = hash;
  artifact_digest = hash;
  file_count = pos 1;
  total_bytes = pos 9;
  sealed = false;
}

abbrev upstream : Package ℕ
upstream = record { validate_commitment = λ a. given payload; assert_binding = λ a. given tt }

abbrev receipt : PublishReceipt
receipt = record { round_index = pos 3; payload = payload }

abbrev publication : Result PublishReceipt × Sys (Track ℕ)
publication = publish node session live upstream packed unsigned

publishes_package : publication ≡ (ok receipt, publication.1)
unfolding mt.Base.after mt.Base.any_char mt.Base.before mt.Base.contains mt.Base.ends_with_lower
    mt.Base.eq_lower mt.Base.has_char mt.Base.has_text mt.Base.hex_tag mt.Base.is_space
    mt.Base.lower_code mt.Base.show_int mt.Base.split_at mt.Chain.Checks.check_live
    mt.Chain.Checks.check_runtime mt.Chain.Checks.code_result mt.Chain.Checks.code_text
    mt.Chain.Checks.is_authorized_place mt.Chain.Envelope.call_args mt.Chain.Envelope.check_asset
    mt.Chain.Envelope.check_envelope mt.Chain.Envelope.expected_call mt.Chain.Envelope.shaped
    mt.Chain.Fee.check_era mt.Chain.Fee.check_fee mt.Chain.Fee.check_signer mt.Chain.Fee.fee_of
    mt.Chain.Node.ask mt.Chain.Node.else_refused mt.Chain.Node.instead mt.Chain.Node.or_refused
    mt.Chain.Node.step mt.Chain.Objects.all_in mt.Chain.Objects.authorization_integer
    mt.Chain.Objects.has_keys mt.Chain.Objects.item mt.Chain.Objects.keys mt.Chain.Objects.lookup
    mt.Chain.Objects.raw_of mt.Chain.Objects.same mt.Chain.Objects.size mt.Chain.Policy.assert_live
    mt.Chain.Policy.assert_registered mt.Chain.Policy.assert_registration
    mt.Chain.Policy.authorized_chain_head mt.Chain.Policy.check_place mt.Chain.Policy.gate_refused
    mt.Chain.Policy.identity_read mt.Chain.Policy.observe_gate mt.Chain.Quote.check_call
    mt.Chain.Quote.check_deposits mt.Chain.Quote.composed mt.Chain.Quote.deposit
    mt.Chain.Quote.estimate mt.Chain.Quote.first_estimate mt.Chain.Quote.inspect
    mt.Chain.Quote.read_index mt.Chain.Submit.admitted mt.Chain.Submit.check_receipt
    mt.Chain.Submit.receipt_charge mt.Chain.Submit.recheck mt.Chain.Submit.refresh
    mt.Chain.Submit.sign mt.Chain.Submit.submit mt.Chain.Submit.submit_authorized_commitment
    mt.Chain.Submit.unchanged mt.Config.Source.any_dots mt.Config.Source.check_bucket
    mt.Config.Source.check_release mt.Config.Source.check_source mt.Config.Source.coordinates_of
    mt.Config.Source.github_release_coordinates mt.Config.Source.is_bucket mt.Config.Source.is_owner
    mt.Config.Source.is_repo mt.Config.Source.is_tag mt.Config.Source.slug
    mt.Config.Source.source_coordinates mt.Config.Source.source_for mt.Config.Source.tail_of
    mt.Config.Template.format mt.Config.Template.pieces mt.Config.Template.render
    mt.Config.uses_signed_v030 mt.Errors.refuse_if mt.Errors.want mt.Errors.◌>>=◌ mt.System.attempt
    mt.System.lift mt.System.observe mt.System.outside mt.System.pure mt.System.raise
    mt.System.raise_if mt.System.reraise mt.System.◌>>=◌ mt.Chain.Publish.publish
    mt.Chain.Publish.check_packaged
publishes_package = refl

publish-IsPublished_example :
    IsPublished node session live packed [] publication.1.world.steps receipt
publish-IsPublished_example =
    publish-IsPublished node session live upstream packed unsigned publication.1 receipt
      publishes_package
