-- ===== src/Chain/Quote.antt =====
-- backend.py: the steps of `_submit_authorized_commitment` up to the first fee estimate, and
-- `_inspect_signed_extrinsic`.
use mt.Base.{ℕ, String, ◌<>◌, not, ℤ, pos, ◌+ℤ◌, int_eqb, hex_tag}
use mt.Errors.{authorization_refused}
use mt.System.{pure, raise_if, lift, ◌>>=◌, ◌>>◌}
use mt.Chain.Objects.{Obj, dict, Entries, same, authorization_integer}
use mt.Chain.Fee.{check_fee, check_era, excess, first_era, prefixed}
use mt.Chain.Envelope.{call_args, expected_call, envelope_keys, shaped, no_data, check_envelope}
use mt.Chain.Node.{
  Node, Session, C, step, ask, or_refused, else_refused, instead, call_read, deposit_read,
  index_read, estimated, extrinsic_read,
}
use mt.Chain.Policy.{authorized_chain_head}

module _ {W : Type 0} (n : Node W) (k : Session) where
  -- `getattr(call, "value", None) != expected_call`
  unfoldable pub check_call : ℕ → String → String → C W (Unit {0})
  check_call call payload text = do
    v ← step (call_read call) (n.call_value call)
    raise_if (not (same n.equals v (dict (expected_call payload)))) authorization_refused text

  unfoldable pub read_index : String → String → String → C W ℤ
  read_index address label text =
      else_refused text
        (do o ← step index_read (n.next_index address); lift (authorization_integer label o))

  unfoldable pub estimate : String → ℕ → Entries → ℤ → C W (Obj × Entries)
  estimate text call era nonce =
      or_refused text (step (estimated call era nonce) (n.payment_info call era nonce))

  -- `_inspect_signed_extrinsic`
  unfoldable pub inspect : ℕ → String → ℤ → Entries → C W String
  inspect x payload nonce era = do
    o ← step (extrinsic_read x) (n.extrinsic_value x)
    v ← lift (shaped envelope_keys "signed extrinsic fields differ from the audited shape" o)
    account ← instead "signing account identity could not be proven" (lift k.public_key)
    lift (check_envelope n.equals ("0x" <> account) payload nonce era v)
    data_text ← ask (n.extrinsic_data x)
    raise_if (no_data data_text) authorization_refused "signed extrinsic has no encoded data"
    raw ← instead "signed extrinsic hash could not be proven" (ask (n.extrinsic_hash x))
    raise_if (not (hex_tag "0x" 64 (prefixed (n.lower raw)))) authorization_refused
        "signed extrinsic hash was not canonical"
    pure (prefixed (n.lower raw))

  unfoldable pub composed : String → C W (String × ℕ)
  composed payload = else_refused "authorized commitment call could not be composed: " (do
    head ← authorized_chain_head n
    call ← ask (n.compose_call "Commitments" "set_commitment" (call_args payload) head)
    pure (head, call))

  unfoldable pub deposit : String → String → C W ℤ
  deposit name head = do
    o ← step (deposit_read name) (n.get_constant "Commitments" name head)
    lift (authorization_integer ("Commitments." <> name) o)

  -- The deposits, whose sum is the authorized maximum.
  unfoldable pub check_deposits : String → C W (Unit {0})
  check_deposits head = do
    (initial, field) ←
        else_refused "commitment deposit could not be proven before signing: "
          (do i ← deposit "InitialDeposit" head; f ← deposit "FieldDeposit" head; pure (i, f))
    raise_if (not (int_eqb (initial +ℤ field) (pos 0))) authorization_refused
        (excess "required commitment deposit is " (initial +ℤ field))

  -- The fee estimate that fixes the nonce and the era.
  unfoldable pub first_estimate : String → ℕ → String → C W (ℤ × Entries)
  first_estimate address call payload = do
    (nonce, payment, era) ←
        else_refused "transaction fee could not be estimated before signing: " (do
          o ← step index_read (n.next_index address)
          i ← lift (authorization_integer "hotkey account nonce" o)
          (p, e) ← step (estimated call first_era i) (n.payment_info call first_era i)
          pure (i, p, e))
    lift (
        check_fee "transaction fee estimate response was incomplete" "estimated transaction fee"
          (excess "estimated transaction fee is ") payment)
    lift (check_era era)
    check_call call payload "fee estimation mutated the authorized commitment call"
    pure (nonce, era)
