-- ===== src/Config/Refusals.antt =====
-- config.py: what loading a configuration raises.
use mt.Base.{String, strip, Bool, true, false, ◌≡◌, Option, some, ℤ, if◌then◌else◌}
use mt.Json.{Python}
use mt.Errors.{Error, config, ok, err}
use mt.Errors.Raises.{
  Raises, Raises-ok, Raises-fail, Raises-if, Raises-bind, Raises-bind_known, Raises-refuse,
  Raises-want, Raises-found,
}
use mt.Config.{Config, uses_signed_v030}
use mt.Config.Environment.{
  Env, Paths, get_or, reject_forbidden, text, checked_integer, integer, optional_checked,
  optional_integer, boolean, true_text, false_text, path, optional_path,
}
use mt.Config.Template.{validate_template}
use mt.Config.Validate.{check_identity, check_signed, check_legacy, check_source_policy, validate}
use mt.Config.Load.{read_config, from_env}
use mt.Config.Bounds.{read_config-IsBounded}
use mt.Config.Rendered.{source_for-Raises_tested}

text-Raises : (env : Env) (key d : String) (r : Bool) → Raises config (text env key d r)
unfolding text
text-Raises env key d r = Raises-bind (Raises-refuse _ _) λ _. Raises-ok _

-- Every path names a home directory that is known, or none.
abbrev pub KnowsHomes : Paths → Type 0
KnowsHomes paths = (s : String) → (t : String) × (paths.absolute s ≡ some t)

module _ (paths : Paths) (knows : KnowsHomes paths) (env : Env) where
  path-Raises : (key d : String) (r : Bool) → Raises config (path paths env key d r)
  unfolding path
  path-Raises key d r =
      Raises-bind (text-Raises env key d r) λ raw. Raises-found _ _ _ (knows raw).1

  optional_path-Raises : (key : String) → Raises config (optional_path paths env key)
  unfolding optional_path
  optional_path-Raises key = Raises-bind (text-Raises env key "" false) λ raw.
      Raises-if _ (Raises-ok _)
        (Raises-bind (Raises-found _ _ _ (knows raw).1) λ found. Raises-ok _)

reject_forbidden-Raises : (env : Env) → Raises config (reject_forbidden env)
unfolding reject_forbidden
reject_forbidden-Raises env = Raises-refuse _ _

validate_template-Raises : (t : String) → Raises config (validate_template t)
unfolding validate_template
validate_template-Raises t =
    Raises-bind (Raises-want _ _) λ l. Raises-bind (Raises-refuse _ _) λ _. Raises-refuse _ _

module _ (py : Python) where
  checked-Raises :
      (key raw : String) (low high : Option ℤ) → Raises config (checked_integer py key raw low high)
  unfolding checked_integer
  checked-Raises key raw low high =
      Raises-bind (Raises-want _ _)
        λ n. Raises-bind (Raises-refuse _ _) λ _. Raises-bind (Raises-refuse _ _) λ _. Raises-ok _

  integer-Raises :
      (env : Env) (key : String) (d : ℤ) (low high : Option ℤ)
      → Raises config (integer py env key d low high)
  unfolding integer
  integer-Raises env key d low high = checked-Raises key _ low high

  optional_integer-Raises :
      (env : Env) (key : String) (low : Option ℤ) → Raises config (optional_integer py env key low)
  unfolding optional_integer optional_checked
  optional_integer-Raises env key low =
      Raises-if _ (Raises-ok _) (Raises-bind (checked-Raises key _ low _) λ n. Raises-ok _)

  boolean-Raises : (env : Env) (key : String) (d : Bool) → Raises config (boolean py env key d)
  unfolding boolean
  boolean-Raises env key d =
      let raw = strip (get_or env key (if d then "true" else "false")) in
      Raises-if (true_text raw) (Raises-ok true)
        (Raises-if (false_text raw) (Raises-ok false) (Raises-fail _))

check_identity-Raises : (c : Config) → Raises config (check_identity c)
unfolding check_identity
check_identity-Raises c = Raises-bind (Raises-refuse _ _) λ _. Raises-bind (Raises-refuse _ _) λ _.
    Raises-bind (Raises-refuse _ _) λ _. Raises-bind (Raises-refuse _ _) λ _.
      Raises-bind (Raises-refuse _ _) λ _. Raises-bind (Raises-refuse _ _) λ _. Raises-refuse _ _

check_signed-Raises : (c : Config) → Raises config (check_signed c)
unfolding check_signed
check_signed-Raises c = Raises-bind (Raises-refuse _ _) λ _. Raises-bind (Raises-refuse _ _) λ _.
    Raises-bind (Raises-refuse _ _) λ _.
      Raises-bind (Raises-refuse _ _) λ _. Raises-bind (Raises-refuse _ _) λ _. Raises-refuse _ _

check_legacy-Raises : (c : Config) → Raises config (check_legacy c)
unfolding check_legacy
check_legacy-Raises c = Raises-bind (Raises-refuse _ _) λ _. Raises-refuse _ _

check_source_policy-Raises :
    (c : Config)
    → validate_template c.source_template ≡ ok tt
    → Raises config (check_source_policy c)
unfolding check_source_policy
check_source_policy-Raises c tested = Raises-bind (Raises-refuse _ _) λ _.
    Raises-bind (source_for-Raises_tested c _ _ tested) λ _. Raises-bind (Raises-refuse _ _) λ _.
      Raises-bind (Raises-refuse _ _) λ _. Raises-bind (Raises-refuse _ _) λ _.
        Raises-bind (Raises-refuse _ _) λ _. Raises-bind (Raises-refuse _ _) λ _.
          Raises-bind (Raises-refuse _ _)
            λ _. Raises-bind (Raises-refuse _ _) λ _. Raises-refuse _ _

validate-Raises :
    (c : Config) → validate_template c.source_template ≡ ok tt → Raises config (validate c)
unfolding validate
validate-Raises c tested = Raises-bind (check_identity-Raises c) λ _.
    Raises-bind (Raises-if (uses_signed_v030 c) (check_signed-Raises c) (check_legacy-Raises c))
      λ _. Raises-bind (Raises-refuse _ _) λ _. check_source_policy-Raises c tested

module _ (py : Python) (upper : String → String) (paths : Paths) (knows : KnowsHomes paths)
    (env : Env) where
  read_config-Raises : Raises config (read_config py upper paths env)
  unfolding read_config
  read_config-Raises =
      let t = text-Raises env in
      let p = path-Raises paths knows env in
      let i = integer-Raises py env in
      let b = boolean-Raises py env in
      Raises-bind (reject_forbidden-Raises env) λ _.
        Raises-bind (optional_integer-Raises py env _ _) λ activation. Raises-bind (p _ _ _) λ _.
          Raises-bind (p _ _ _) λ _. Raises-bind (p _ _ _) λ _. Raises-bind (t _ _ _) λ template.
            Raises-bind (validate_template-Raises template) λ _. Raises-bind (i _ _ _ _) λ _.
              Raises-bind (t _ _ _) λ _. Raises-bind (t _ _ _) λ _. Raises-bind (t _ _ _) λ _.
                Raises-bind (t _ _ _) λ _. Raises-bind (p _ _ _) λ _. Raises-bind (i _ _ _ _) λ _.
                  Raises-bind (p _ _ _) λ _. Raises-bind (i _ _ _ _) λ _. Raises-bind (p _ _ _) λ _.
                    Raises-bind (p _ _ _) λ _. Raises-bind (p _ _ _) λ _. Raises-bind (t _ _ _) λ _.
                      Raises-bind (t _ _ _) λ _.
                        Raises-bind (optional_path-Raises paths knows env _) λ _.
                          Raises-bind (t _ _ _) λ _. Raises-bind (t _ _ _) λ _.
                            Raises-bind (t _ _ _) λ _. Raises-bind (i _ _ _ _) λ _.
                              Raises-bind (t _ _ _) λ _. Raises-bind (t _ _ _) λ _.
                                Raises-bind (t _ _ _) λ _. Raises-bind (b _ _) λ _.
                                  Raises-bind (b _ _) λ _. Raises-bind (b _ _) λ _.
                                    Raises-bind (t _ _ _) λ _. Raises-bind (b _ _) λ _.
                                      Raises-bind (i _ _ _ _) λ _. Raises-bind (i _ _ _ _) λ _.
                                        Raises-bind (i _ _ _ _) λ _. Raises-bind (i _ _ _ _) λ _.
                                          Raises-bind (i _ _ _ _) λ _. Raises-bind (i _ _ _ _) λ _.
                                            Raises-bind (i _ _ _ _) λ _. Raises-bind (t _ _ _) λ _.
                                              Raises-bind (i _ _ _ _)
                                                λ _. Raises-bind (i _ _ _ _) λ _. Raises-ok _

  -- Where the home directories that the paths name are known, all that loading a configuration raises
  -- is a `ConfigError`, whatever the environment holds.
  pub from_env-Raises : (e : Error) → from_env py upper paths env ≡ err e → e.kind ≡ config
  unfolding from_env
  from_env-Raises e = loaded.only e
    where
      loaded : Raises config (from_env py upper paths env)
      loaded = Raises-bind_known read_config-Raises λ c f.
          Raises-bind
            (validate-Raises c ((read_config-IsBounded py upper paths env).holds c f).template)
            λ _. Raises-ok _
