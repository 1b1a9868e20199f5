-- ===== src/Tests/Settings.antt =====
-- The theorems about the configuration at one environment.
use Prim.Native.Char.{code}
use mt.Base.{
  ℕ, ◌+◌, ◌-◌, ◌*◌, String, ◌<>◌, Bool, true, false, ◌≡◌, refl, Option, none, some, ℤ, pos, negsuc,
  ◌==◌, eqb, leb, ◌&&◌, if◌then◌else◌,
}
use mt.Json.{Python}
use mt.Errors.{Error, Kind, Result, ok, err}
use mt.Config.{Config}
use mt.Config.Environment.{Env, Paths}
use mt.Config.Load.{from_env}
use mt.Config.Source.{source_for}
use mt.Config.Safe.{IsSafe, from_env-IsSafe}
use mt.Config.Bounds.{IsBounded, from_env-IsBounded}
use mt.Config.Refusals.{KnowsHomes, from_env-Raises}
use mt.Config.Rendered.{IsSource, source_for-IsSource, source_for-Raises}
use mt.Tests
use mt.Tests.{config}

abbrev value_of : ℕ → String → Option ℕ
value_of acc String.[] = some acc
value_of acc (String.◌∷◌ c s) =
    let rest = value_of (acc * 10 + (code c - b'0')) s in
    if leb b'0' (code c) && leb (code c) b'9' then rest else none

abbrev signed : Option ℕ → Option ℤ
signed none = none
signed (some n) = some (negsuc (n - 1))

abbrev unsigned : Option ℕ → Option ℤ
unsigned none = none
unsigned (some n) = some (pos n)

abbrev parse_int : String → Option ℤ
parse_int String.[] = none
parse_int (String.◌∷◌ c s) =
    if eqb (code c) b'-' then signed (value_of 0 s) else unsigned (value_of 0 (String.◌∷◌ c s))

-- An interpreter that reads decimal numbers.
abbrev reading : Python
reading = record Tests.py { int_of_text = parse_int }

abbrev paths : Paths
paths = record {
  absolute = λ s. some s;
  parent = λ s. "/var/lib/miner";
  join = λ a b. a <> ("/" <> b);
}

abbrev upper : String → String
upper s = s

-- What has no default.
abbrev environment : Env
environment key =
    if key == "MMC_ARTIFACT_DIR"
    then some "/artifact"
    else if key == "MMC_SOURCE_TEMPLATE"
    then some " s3:bucket/{round} "
    else if key == "MT_WALLET_PATH"
    then some "/wallets"
    else if key == "MMC_ARTIFACT_COMPETITION_BINDING_PATH"
    then some "/binding.json"
    else none

abbrev nothing_set : Env
nothing_set key = none

abbrev loaded : Result Config
loaded = from_env reading upper paths environment

abbrev config_or : Result Config → Config
config_or (ok c) = c
config_or (err e) = config true

abbrev refused : Error
refused = record { kind = Kind.config; text = "MMC_ARTIFACT_DIR is required" }

abbrev negative : Error
negative = record { kind = Kind.config; text = "round index must not be negative" }

settings :
    (loaded ≡ ok (config_or loaded))
    × (from_env reading upper paths nothing_set ≡ err refused)
    × (source_for (config_or loaded) (pos 7) "hot" ≡ ok "s3:bucket/7")
    × (source_for (config_or loaded) (negsuc 0) "hot" ≡ err negative)
unfolding from_env mt.Config.Load.read_config mt.Errors.◌>>=◌ mt.Config.Environment.reject_forbidden
    mt.Errors.refuse_if mt.Base.strip mt.Config.Environment.optional_integer
    mt.Config.Environment.path mt.Config.Environment.text mt.Errors.want mt.Base.is_space
    mt.Config.Template.validate_template mt.Config.Template.pieces mt.Config.Template.all_allowed
    mt.Config.Template.names_round mt.Config.Environment.integer
    mt.Config.Environment.checked_integer mt.Base.show_int mt.Config.Environment.optional_path
    mt.Base.after mt.Base.any_char mt.Base.before mt.Base.ends_with mt.Base.ends_with_lower
    mt.Base.eq_lower mt.Base.has_char mt.Base.has_text mt.Base.lower_code mt.Base.lstrip
    mt.Base.rstrip mt.Base.rstrip_char mt.Base.split_at mt.Config.Environment.boolean
    mt.Config.Environment.optional_checked mt.Config.Source.any_dots mt.Config.Source.check_bucket
    mt.Config.Source.check_release mt.Config.Source.check_source mt.Config.Source.coordinates_of
    mt.Config.Source.github_release_coordinates mt.Config.Source.is_bucket mt.Config.Source.is_owner
    mt.Config.Source.is_repo mt.Config.Source.is_tag source_for mt.Config.Template.argument
    mt.Config.Template.format mt.Config.Template.render mt.Config.Validate.check_identity
    mt.Config.Validate.check_legacy mt.Config.Validate.check_signed
    mt.Config.Validate.check_source_policy mt.Config.Validate.validate mt.Config.uses_signed_v030
settings = (refl, refl, refl, refl)

from_env-IsSafe_example : IsSafe (config_or loaded)
from_env-IsSafe_example =
    from_env-IsSafe reading upper paths environment (config_or loaded) settings.0

from_env-IsBounded_example : IsBounded (config_or loaded)
from_env-IsBounded_example =
    from_env-IsBounded reading upper paths environment (config_or loaded) settings.0

knows : KnowsHomes paths
knows s = (s, refl)

from_env-Raises_example : refused.kind ≡ Kind.config
from_env-Raises_example = from_env-Raises reading upper paths knows nothing_set refused settings.1

source_for-IsSource_example : IsSource "s3:bucket/7"
source_for-IsSource_example =
    source_for-IsSource (config_or loaded) (pos 7) "hot" "s3:bucket/7" settings.2

source_for-Raises_example : negative.kind ≡ Kind.config
source_for-Raises_example =
    source_for-Raises reading upper paths environment (config_or loaded) (negsuc 0) "hot" negative
      settings.0 settings.3
