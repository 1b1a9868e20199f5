-- ===== src/System.antt =====
-- The process and what it talks to: the state directory, the world behind the backend, the calls
-- that were made. An action returns or raises, and what it wrote before a raise stays written.
pub mod Rules
use mt.Base.{ℕ, String, Bool, true, false, ℤ, Option, none, some, List, [], ◌∷◌, if◌then◌else◌}
use mt.Json.{Value, Fields, Python}
use mt.Errors.{Kind, Error, Result, ok, err}
use mt.Models.{PackagedArtifact}
use mt.Redaction.{Redactor}

-- What opening a file as JSON finds; `json` is what `json.loads` returns.
pub data Content : Type 0 where
  unreadable not_utf8 not_json : Content
  json : Value → Content

-- A path: absent, refused by `stat`, no regular file, a link to a regular file, or a regular file.
pub data File : Type 0 where
  missing stat_error irregular : File
  link regular : Content → File

-- The documents of `StateStore`.
pub record Files : Type 0 where
  pub status : File
  pub health : File
  pub rank : File
  pub authorization : File
  pub pending : File

-- How a replacement or a removal of a file ends: with the effect, with a raise and no effect, or
-- with a raise after the effect (the `fsync` of the directory).
pub data Effect : Type 0 where
  done fails_before fails_after : Effect

-- The methods of the `Backend` protocol, with their arguments.
pub data Call : Type 0 where
  preflight block chain_round verify_round_anchor validate_round assert_registered : Call
  validate_artifact_competition_binding load_local close : Call
  package_round : ℤ → String → Call
  upload validate_commitment publish verify_on_chain : PackagedArtifact → Call
  verify_source : PackagedArtifact → Bool → Call
  verify_provenance : PackagedArtifact → ℤ → Call

-- A call, the state directory at that moment, and whether the call returned.
pub record Event : Type 0 where
  pub call : Call
  pub files : Files
  pub returned : Bool

abbrev pub is_ok : {A : Type 0} → Result A → Bool
is_ok (ok a) = true
is_ok (err e) = false

pub record Sys (W : Type 0) : Type 0 where
  pub files : Files
  pub world : W
  pub events : List Event

abbrev pub M : Type 0 → Type 0 → Type 0
M W A = Sys W → Result A × Sys W

module _ {W A : Type 0} where
  unfoldable pub pure : A → M W A
  pure a s = (ok a, s)

  unfoldable pub raise : Kind → String → M W A
  raise k t s = (err (record { kind = k; text = t }), s)

  unfoldable pub lift : Result A → M W A
  lift r s = (r, s)

  unfoldable pub gets : (Sys W → A) → M W A
  gets f s = (ok (f s), s)

  -- What an action of the world gives; the state directory stays.
  unfoldable pub outside : (W → Result A × W) → M W A
  outside f s = let (r, w) = f s.world in (r, record s { world = w })

  -- The same, where nothing can be raised.
  unfoldable pub observe : (W → A × W) → M W A
  observe f s = let (a, w) = f s.world in (ok a, record s { world = w })

  -- As `outside`, and the call is noted.
  unfoldable pub call : Call → (W → Result A × W) → M W A
  call c f s =
      let (r, w) = f s.world in
      (
        r,
        record s {
          world = w;
          events = record { call = c; files = s.files; returned = is_ok r } ∷ s.events;
        },
      )

module _ {W A B : Type 0} where
  abbrev pub continue : Result A → (A → M W B) → (Error → M W B) → M W B
  continue (ok a) f g s = f a s
  continue (err e) f g s = g e s

module _ {W A B : Type 0} where
  infixl 5 ◌>>=◌ ◌>>◌
  unfoldable pub ◌>>=◌ : M W A → (A → M W B) → M W B
  ◌>>=◌ m f s = let (r, t) = m s in continue r f (λ e u. (err e, u)) t

  abbrev pub ◌>>◌ : M W A → M W B → M W B
  m >> n = m >>= λ _. n

-- `try: m … except: handler`; the handler raises again what it does not handle.
unfoldable pub attempt : {W A : Type 0} → M W A → (Error → M W A) → M W A
attempt m handler s = let (r, t) = m s in continue r (λ a u. (ok a, u)) handler t

unfoldable pub reraise : {W A : Type 0} → Error → M W A
reraise e s = (err e, s)

unfoldable pub raise_if : {W : Type 0} → Bool → Kind → String → M W (Unit {0})
raise_if true k t s = (err (record { kind = k; text = t }), s)
raise_if false k t s = (ok tt, s)

-- The services of the process: the clock, the interpreter, the name of an exception's class, the file
-- system's effects, the stop event, and the rank monitor's thread; `monitor_stop` stops it where it was
-- started.
pub record Host (W : Type 0) : Type 0 where
  pub py : Python
  pub redactor : Redactor
  pub now : W → Result ℕ × W
  pub utc_timestamp : ℕ → String
  pub pid : ℤ
  pub class_name : Error → String
  pub effect : W → Effect × W
  pub stop_is_set : W → Bool × W
  pub stop_wait : ℤ → W → Bool × W
  pub monitor_start : String → W → W
  pub monitor_stop : W → W
