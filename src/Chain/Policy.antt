-- ===== src/Chain/Policy.antt =====
-- backend.py: `_assert_live_transaction_policy`, `assert_registered`, `_assert_authorized_registration`
-- and `_authorized_chain_head`.
use mt.Base.{
  String, ◌<>◌, ◌||◌, not, Option, none, some, pos, int_eqb, show_int, ◌==◌, hex_tag, if◌then◌else◌,
}
use mt.Errors.{preflight, verification, authorization_refused, want, is_verification}
use mt.System.{M, pure, raise, raise_if, lift, attempt, reraise, ◌>>=◌, ◌>>◌}
use mt.Config.{Config, uses_signed_v030}
use mt.Config.Source.{source_coordinates, source_for}
use mt.Chain.Objects.{Obj, authorization_integer}
use mt.Chain.Checks.{
  genesis_hash, runtime_code_hash, is_authorized_place, check_live, check_runtime, code_result,
}
use mt.Chain.Node.{Node, Session, C, ask, or_refused}

module _ {W : Type 0} (n : Node W) (k : Session) (c : Config) where
  -- The observer's gate, where the signed release is in use.
  unfoldable pub gate_refused : Option String → (String → C W (Unit {0})) → C W (Unit {0})
  gate_refused none refuse = pure tt
  gate_refused (some t) refuse = refuse t

  unfoldable pub observe_gate : (String → C W (Unit {0})) → C W (Unit {0})
  observe_gate refuse =
      if uses_signed_v030 c
      then (do
        o ← mt.System.observe λ w. let (o, u) = n.observer w.outer in (o, record w { outer = u })
        gate_refused o refuse)
      else pure tt

  -- The dependencies, and the place of the artifacts.
  unfoldable pub check_place : C W (Unit {0})
  check_place = do
    place ← or_refused "live dependency or artifact-source policy could not be proven: " (do
      ask n.dependencies
      hotkey ← lift k.hotkey
      source ← lift (source_for c (pos 0) hotkey)
      pure (source_coordinates source))
    raise_if (not (is_authorized_place place)) authorization_refused
        "artifact source is not the authorized vandungtech/mt92 repo"

  -- `_assert_live_transaction_policy`
  unfoldable pub assert_live : C W (Unit {0})
  assert_live = do
    observe_gate λ t. raise authorization_refused ("upstream observer gate failed: " <> t)
    lift (check_live c k.hotkey)
    check_place

  -- `assert_registered`
  unfoldable pub assert_registered : C W (Unit {0})
  assert_registered = do
    observe_gate λ t. raise verification ("upstream observer gate failed: " <> t)
    raise_if (not k.has_client) preflight "chain client has not passed preflight"
    uid ←
        attempt (do hotkey ← lift k.hotkey; ask (n.uid_of hotkey))
          (λ e. raise verification ("registration refresh failed: " <> e.text))
    raise_if (not (int_eqb uid c.expected_uid)) verification
        ("hotkey now maps to UID " <> (show_int uid <> (", expected " <> show_int c.expected_uid)))

  -- `_assert_authorized_registration`
  unfoldable pub assert_registration : C W (Unit {0})
  assert_registration = do
    assert_live
    raise_if (not k.has_client) authorization_refused "chain client has not passed preflight"
    o ← ask n.client_netuid
    netuid ← lift (authorization_integer "chain client netuid" o)
    raise_if (not (int_eqb c.netuid (pos 92)) || not (int_eqb netuid (pos 92)))
        authorization_refused "authorized netuid changed from 92"
    attempt assert_registered λ e.
        if is_verification e.kind
        then raise authorization_refused
            ("you-hot1 registration at UID 32 could not be proven: " <> e.text)
        else reraise e

module _ {W : Type 0} (n : Node W) where
  -- The four answers of the `try`.
  unfoldable pub identity_read : C W (String × String × Obj × Obj)
  identity_read = do
    g ← ask (n.block_hash (pos 0))
    h ← ask n.chain_head
    runtime ← ask (n.runtime_info (n.lower h))
    code ← ask (n.storage_hash "0x3a636f6465" (n.lower h))
    pure (n.lower g, n.lower h, runtime, code)

  -- `_authorized_chain_head`
  unfoldable pub authorized_chain_head : C W String
  authorized_chain_head = do
    (genesis, head, runtime, code) ←
        or_refused "Finney runtime identity could not be proven before signing: " identity_read
    raise_if (not (genesis == genesis_hash)) authorization_refused
        ("chain genesis is " <> (genesis <> ", not the authorized Finney genesis"))
    raise_if (not (hex_tag "0x" 64 head)) authorization_refused
        "chain head response was not a canonical hash"
    lift (check_runtime runtime)
    found ←
        lift (
          want (code_result code) authorization_refused "runtime code hash response was incomplete")
    raise_if (not (n.lower found == runtime_code_hash)) authorization_refused
        ("runtime code hash is " <> (n.lower found <> ", not the audited Finney runtime"))
    pure head
