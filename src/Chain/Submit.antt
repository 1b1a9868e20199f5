-- ===== src/Chain/Submit.antt =====
-- backend.py: `_submit_authorized_commitment`, cut at its try blocks.
use mt.Base.{
  ℕ, String, ◌<>◌, ◌||◌, ◌&&◌, not, ℤ, pos, int_eqb, show_int, codes, length, ◌==◌, hex_tag, leb,
  any_char, if◌then◌else◌, Bool, false,
}
use mt.Errors.{authorization_refused, is_authorization_refused}
use mt.System.{pure, raise, raise_if, lift, attempt, reraise, ◌>>=◌, ◌>>◌}
use mt.Config.{Config}
use mt.Chain.Objects.{Obj, bool, dict, Entries, same, authorization_integer}
use mt.Chain.Fee.{check_fee, check_signer, excess}
use mt.Chain.Node.{Node, Session, C, step, ask, or_refused, instead, signed, submitted}
use mt.Chain.Policy.{assert_live, assert_registration, authorized_chain_head}
use mt.Chain.Quote.{
  check_call, read_index, estimate, inspect, composed, check_deposits, first_estimate,
}

abbrev is_true : Obj → Bool
is_true (bool b) = b
is_true _ = false

module _ {W : Type 0} (n : Node W) (k : Session) (c : Config) where
  -- The registration, the chain's identity and the nonce, read again.
  unfoldable pub unchanged : String → ℤ → String → String → String → C W (Unit {0})
  unchanged address nonce label text changed = do
    assert_registration n k c
    authorized_chain_head n
    i ← read_index n k address label text
    raise_if (not (int_eqb i nonce)) authorization_refused changed

  -- What is read again before the signature.
  unfoldable pub refresh : String → ℕ → ℤ → Entries → C W (Unit {0})
  refresh address call nonce era = do
    unchanged address nonce "pre-sign hotkey account nonce"
        "hotkey nonce could not be refreshed before signing: "
        "hotkey nonce changed after the fee estimate"
    (payment, refreshed) ←
        estimate n k "transaction fee could not be refreshed before signing: " call era nonce
    lift (
        check_fee "refreshed transaction fee response was incomplete" "refreshed transaction fee"
          (excess "refreshed transaction fee is ") payment)
    raise_if (not (same n.equals (dict refreshed) (dict era))) authorization_refused
        "refreshed fee estimate changed the signed mortal era"

  -- The signature, inspected.
  unfoldable pub sign : ℕ → String → ℤ → Entries → C W (ℕ × String)
  sign call payload nonce era = do
    x ←
        or_refused "signed commitment could not be created; no submission attempted: "
          (step (signed call era nonce) (n.create_signed call era nonce))
    hash ← inspect n k x payload nonce era
    pure (x, hash)

  -- What is read again before the submission.
  unfoldable pub recheck : ℕ → String → ℕ → String → ℤ → Entries → C W String
  recheck x address call payload nonce era = do
    unchanged address nonce "pre-submit hotkey account nonce"
        "hotkey nonce could not be refreshed before submission: "
        "hotkey nonce changed after signing"
    (payment, final) ←
        estimate n k "transaction fee could not be proven immediately before submit: " call era
          nonce
    lift (
        check_fee "final transaction fee response was incomplete" "final transaction fee"
          (excess "final transaction fee is ") payment)
    raise_if (not (same n.equals (dict final) (dict era))) authorization_refused
        "final fee estimate changed the signed transaction envelope"
    check_call n k call payload "final fee estimate changed the signed transaction envelope"
    inspect n k x payload nonce era

  unfoldable pub submit : ℕ → C W ℕ
  submit x =
      instead
        "commitment submission outcome is ambiguous; operator reconciliation is required before any retry"
        (step (submitted x) (n.submit_extrinsic x))

  -- The receipt's fee, behind the tests of the receipt.
  unfoldable pub receipt_charge : String → ℕ → C W ℤ
  receipt_charge hash r =
      attempt
        (do
          h ← ask (n.receipt_hash r)
          b ← ask (n.receipt_block r)
          finalized ← ask (n.receipt_finalized r)
          raise_if (not (is_true finalized)) authorization_refused
              "commitment receipt did not prove finalization"
          raise_if (not (n.lower h == hash) || not (hex_tag "0x" 64 (n.lower h)))
              authorization_refused "receipt does not identify the signed extrinsic"
          raise_if (not (hex_tag "0x" 64 (n.lower b))) authorization_refused
              "commitment receipt omitted a canonical block hash"
          success ← ask (n.receipt_success r)
          raise_if (not (is_true success)) authorization_refused
              "finalized commitment did not prove success"
          o ← ask (n.receipt_fee r)
          lift (authorization_integer "receipt total fee" o))
        λ e.
          if is_authorization_refused e.kind
          then reraise e
          else raise authorization_refused
              "finalized commitment receipt could not be proven; operator reconciliation is required before any retry"

  unfoldable pub check_receipt : String → ℕ → C W (Unit {0})
  check_receipt hash r = do
    charged ← receipt_charge hash r
    raise_if (not (int_eqb charged (pos 0))) authorization_refused
        ("commitment receipt reports a nonzero fee (" <> (show_int charged <> " rao)"))

  -- The tests before the chain is asked.
  unfoldable pub admitted : String → C W String
  admitted payload = do
    assert_live n k c
    raise_if (not k.has_client || not k.has_wallet) authorization_refused
        "wallet and chain client have not passed preflight"
    assert_registration n k c
    raise_if (any_char (λ d. leb 128 d) payload) authorization_refused
        "commitment payload is not ASCII"
    raise_if (not (leb 1 (length (codes payload)) && leb (length (codes payload)) 128))
        authorization_refused "commitment payload is outside the Raw1-Raw128 allowlist"
    raise_if (not k.has_substrate) authorization_refused
        "direct Substrate transaction interface is unavailable"
    lift (check_signer k.signer k.hotkey)

  -- `_submit_authorized_commitment`
  unfoldable pub submit_authorized_commitment : String → C W (Unit {0})
  submit_authorized_commitment payload = do
    address ← admitted payload
    (head, call) ← composed n k payload
    check_call n k call payload
        "composed transaction differs from Commitments.set_commitment(netuid=92)"
    check_deposits n k head
    (nonce, era) ← first_estimate n k address call payload
    refresh address call nonce era
    (x, hash) ← sign call payload nonce era
    recheck x address call payload nonce era
    r ← submit x
    check_receipt hash r
