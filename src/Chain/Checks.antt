-- ===== src/Chain/Checks.antt =====
-- backend.py: the tests of the configuration and of the runtime's identity.
use mt.Base.{
  String, ◌<>◌, Bool, false, ◌&&◌, ◌||◌, not, Option, none, some, ℤ, pos, int_eqb, show_int, ◌==◌,
}
use mt.Errors.{authorization_refused, Result, fail, refuse_if, want, ◌>>=◌, ◌>>◌}
use mt.Config.{Config}
use mt.Config.Source.{Coordinates}
use mt.Config.Validate.{transaction_authorization}
use mt.Chain.Objects.{Obj, str, dict, lookup, authorization_integer}

abbrev pub authorized_hotkey : String
authorized_hotkey = "5HgeNAYMw7piRNCNgGuRyaDnJUsoazZpxEbT7G7RukHSNw3r"

abbrev pub authorized_repository : String
authorized_repository = "vandungtech/mt92"

abbrev pub genesis_hash : String
genesis_hash = "0x2f0555cc76fc2840a25a6ea3b9637146806f1f44b090c175ffde2a7e5ab36c03"

abbrev pub runtime_code_hash : String
runtime_code_hash = "0x40a8c3c99a47d6739b086236308535fab26d5fd4cc5c88eb83f6a3c8b928f7cc"

-- `coordinates is not None and f"{owner}/{repo}" == AUTHORIZED_GITHUB_REPOSITORY`
unfoldable pub is_authorized_place : Option Coordinates → Bool
is_authorized_place none = false
is_authorized_place (some c) = c.owner <> ("/" <> c.repo) == authorized_repository

-- The tests of `_assert_live_transaction_policy` on the configuration and the loaded hotkey.
unfoldable pub check_live : Config → Result String → Result (Unit {0})
check_live c hotkey = do
  refuse_if c.dry_run authorization_refused "chain submission is forbidden while MMC_DRY_RUN=true"
  refuse_if (not (c.transaction_authorization == transaction_authorization)) authorization_refused
      "the exact zero-cost transaction authorization is absent"
  refuse_if (not (int_eqb c.netuid (pos 92)) || not (int_eqb c.expected_uid (pos 32)))
      authorization_refused "authorized netuid 92 / UID 32 identity changed"
  refuse_if (not (c.wallet_name == "you-cold" && c.wallet_hotkey == "you-hot1"))
      authorization_refused "authorized you-cold / you-hot1 wallet selection changed"
  h ← hotkey
  refuse_if (not (h == authorized_hotkey)) authorization_refused
      "loaded hotkey is not the authorized UID-32 you-hot1 key"
  refuse_if (not (c.network == "finney") || not (c.endpoint == "")) authorization_refused
      "live commitment requires finney with no custom endpoint"

abbrev pub omitted : String
omitted = "runtime version response omitted pinned fields"

abbrev pub spec_text : ℤ → String
spec_text n = "runtime spec is " <> (show_int n <> ", expected pinned 452")

abbrev pub transaction_text : ℤ → String
transaction_text n = "runtime transaction version is " <> (show_int n <> ", expected pinned 1")

-- The runtime's version.
unfoldable pub check_runtime : Obj → Result (Unit {0})
check_runtime (dict d) = do
  s ← want (lookup "specVersion" d) authorization_refused omitted
  t ← want (lookup "transactionVersion" d) authorization_refused omitted
  spec ← authorization_integer "runtime spec version" s
  transaction ← authorization_integer "runtime transaction version" t
  refuse_if (not (int_eqb spec (pos 452))) authorization_refused (spec_text spec)
  refuse_if (not (int_eqb transaction (pos 1))) authorization_refused (transaction_text transaction)
check_runtime _ = fail authorization_refused "runtime version response was incomplete"

-- `code_response["result"]`, a text
unfoldable pub code_text : Option Obj → Option String
code_text (some (str s)) = some s
code_text _ = none

unfoldable pub code_result : Obj → Option String
code_result (dict d) = code_text (lookup "result" d)
code_result _ = none
