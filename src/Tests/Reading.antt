-- ===== src/Tests/Reading.antt =====
-- The theorems about the reading of protected files at small files.
use mt.Base.{
  ℕ, zero, suc, ◌-◌, String, Bool, true, false, ◌≡◌, ◌≢◌, refl, Option, none, some, List, [], ◌∷◌,
  map, ℤ, pos, int_ltb, ◌⊎◌, inl,
}
use mt.Json.{Value, str, int, float, list, dict, nil, Fields, end, field, Python}
use mt.Json.Strict.{Parsed}
use mt.Errors.{Error, Kind, Result, ok, err}
use mt.System.{Sys}
use mt.Protected.{Metadata, Disk, read_root_service_file}
use mt.Protected.Root.{IsServiceFile, read_root-IsServiceFile, read_root_ends}
use mt.Gate.{Reader, verify_status}
use mt.Gate.Sound.{IsVerified, verify_status-IsVerified}
use mt.EnvFile.{Environ, lookup, load_lines, load_env_file}
use mt.EnvFile.Wins.{IsClean}
use mt.EnvFile.Outcome.{load_env_file-keeps, load_env_file-IsClean}
use mt.EnvFile.RoundTrip.{Writable, names, or_else, render_line, load_lines_roundtrip}
use mt.Tests
use mt.Tests.{clean}

-- A file of three bytes; the world counts the reads.
abbrev bytes : List ℕ
bytes = 65 ∷ 61 ∷ 49 ∷ []

abbrev metadata : ℕ → Metadata
metadata mode = record {
  device = 1;
  inode = 2;
  mode = mode;
  uid = 0;
  gid = 5;
  links = 1;
  size = pos 3;
  modified = pos 9;
  changed = pos 9;
}

abbrev reads : ℕ → Option (List ℕ) × ℕ
reads zero = (some bytes, 1)
reads (suc n) = (some [], suc n)

-- A regular file with these permissions.
abbrev disk : ℕ → Disk ℕ
disk mode = record {
  is_absolute = λ p. true;
  lstat = λ p w. (some (metadata mode), w);
  open_file = λ p w. (some tt, w);
  fstat = λ w. (some (metadata mode), w);
  read_bytes = λ n w. reads w;
  euid = 0;
  egid = 5;
}

abbrev service : Disk ℕ
service = disk 33184

abbrev after_read : Sys ℕ
after_read = record clean { world = 1 }

read_returns :
    read_root_service_file service "environment file" 65536 "/env" clean
    ≡ (ok (some bytes), after_read)
unfolding read_root_service_file mt.Protected.root_service mt.System.◌>>=◌ mt.System.raise_if
    mt.System.outside mt.System.pure mt.System.raise mt.System.lift mt.Protected.read_stable
    mt.Protected.checked_metadata mt.Protected.guarded mt.Protected.read_loop
    mt.Protected.read_chunk mt.Protected.same_fingerprint mt.Protected.check mt.Protected.finish
    mt.Protected.or_os_error
read_returns = refl

read_root-IsServiceFile_example : IsServiceFile service 65536 "/env" bytes
read_root-IsServiceFile_example =
    read_root-IsServiceFile service "environment file" 65536 "/env" clean after_read bytes
      read_returns

read_root_ends_example : some bytes ≢ none
read_root_ends_example =
    read_root_ends service "environment file" 65536 "/env" clean after_read (some bytes)
      read_returns

-- The status that is asked for.
abbrev status : Fields
status = field "schema" (str "microtensor.upstream-observation.v1") (
    field "schema_version" (int (pos 1)) (
      field "observation_succeeded" (Value.bool true) (
        field "phase" (str "current") (
          field "ok" (Value.bool true) (
            field "origin" (str "https://github.com/microtensor-io/microtensor-subnet") (
              field "origin_head" (str "53e4df648a89fad6586e1ac69916b20e747fd972") (
                field "audited_origin_head" (str "53e4df648a89fad6586e1ac69916b20e747fd972") (
                  field "release_version" (str "0.3.2") (
                    field "mechanism_version" (str "0.3.0") (
                      field "provenance_required" (Value.bool false) (
                        field "local_checkout_at_origin" (Value.bool true) (
                          field "audited_head_is_ancestor" (Value.bool true) (
                            field "review_required" (Value.bool false) (
                              field "miner_impact_review_required" (Value.bool false) (
                                field "history_rewrite_detected" (Value.bool false) (
                                  field "history_rewrite_latched" (Value.bool false) (
                                    field "changed_files_truncated" (Value.bool false) (
                                      field "commits_since_audit" (int (pos 0)) (
                                        field "changed_files" (list nil) (
                                          field "updated_at_epoch" (float 950) (
                                            field "origin_observed_at" (float 900)
                                              end)))))))))))))))))))))

abbrev ticking : Python
ticking = record Tests.py { int_ltb_float = λ n f. int_ltb n (pos f); float_sub = λ a b. a - b }

abbrev reader : Reader
reader = record {
  decode = λ b. some "status";
  parse = λ t. some (record { value = dict status; constants = false });
  skew = 30;
}

verify_returns :
    verify_status ticking (disk 33152) reader "/status.json" (pos 900) 1000 clean
    ≡ (ok (some status), after_read)
unfolding verify_status mt.Gate.read_status mt.Gate.private_file mt.Json.Strict.loads_strict
    mt.Json.Strict.unique mt.Json.has mt.Gate.Status.check_status mt.Errors.refuse_if mt.Errors.want
    mt.Errors.◌>>=◌ mt.Gate.Status.is_empty_list mt.Gate.Status.numeric mt.Gate.Status.require_all
    mt.Gate.Status.require_exact mt.Gate.Status.require_fresh mt.Gate.Status.same_scalar mt.Json.get
    mt.System.◌>>=◌ mt.System.raise_if mt.System.outside mt.System.pure mt.System.raise
    mt.System.lift mt.Protected.read_stable mt.Protected.checked_metadata mt.Protected.guarded
    mt.Protected.read_loop mt.Protected.read_chunk mt.Protected.same_fingerprint mt.Protected.check
    mt.Protected.finish mt.Protected.or_os_error
verify_returns = refl

verify_status-IsVerified_example :
    IsVerified ticking (disk 33152) reader "/status.json" (pos 900) 1000 status
verify_status-IsVerified_example =
    verify_status-IsVerified ticking (disk 33152) reader "/status.json" (pos 900) 1000 clean
      after_read status verify_returns

abbrev at_root : String → Result String
at_root p = ok p

abbrev environ : Environ
environ = ("B", "old") ∷ []

abbrev text_of : String → List ℕ → Option String
text_of t b = some t

abbrev malformed : Error
malformed = record { kind = Kind.config; text = "invalid environment assignment on line 1" }

looked_up :
    (lookup "B" environ ≡ some "old")
    × (lookup "A" (load_env_file service (text_of "A=1") at_root "/env" environ clean).1 ≡ some "1")
    × ((load_env_file service (text_of "A") at_root "/env" environ clean).0 ≡ err malformed)
unfolding lookup load_env_file read_root_service_file mt.Protected.root_service load_lines
    mt.EnvFile.splitlines mt.EnvFile.read_line mt.Base.strip mt.Base.is_space mt.Base.after
    mt.Base.any_char mt.Base.before mt.Base.ends_with mt.Base.has_char mt.Base.lstrip mt.Base.rstrip
    mt.Base.contains mt.Base.show_int mt.EnvFile.all_char mt.EnvFile.is_name
    mt.EnvFile.read_assignment mt.EnvFile.settle mt.System.◌>>=◌ mt.System.raise_if
    mt.System.outside mt.System.pure mt.System.raise mt.System.lift mt.Protected.read_stable
    mt.Protected.checked_metadata mt.Protected.guarded mt.Protected.read_loop
    mt.Protected.read_chunk mt.Protected.same_fingerprint mt.Protected.check mt.Protected.finish
    mt.Protected.or_os_error
looked_up = (refl, refl, refl)

load_env_file-keeps_example :
    lookup "B" (load_env_file service (text_of "B=new") at_root "/env" environ clean).1 ≡ some "old"
load_env_file-keeps_example =
    load_env_file-keeps service (text_of "B=new") at_root "/env" environ clean "B" "old" looked_up.0

load_env_file-IsClean_example : (lookup "A" environ ≡ some "1") ⊎ IsClean "A" "1"
load_env_file-IsClean_example =
    load_env_file-IsClean service (text_of "A=1") at_root "/env" environ clean "A" "1" looked_up.1

abbrev lines : Environ
lines = ("A", "1") ∷ ("B", "new") ∷ []

lines-Writable : Writable [] lines
unfolding mt.EnvFile.is_name mt.EnvFile.all_char mt.Base.strip mt.Base.lstrip mt.Base.rstrip
    mt.Base.is_space mt.Base.any_char mt.Base.ends_with mt.Base.contains
lines-Writable = (
  record { named = refl; trimmed = refl; unquoted = refl; plain = refl },
  refl,
  (record { named = refl; trimmed = refl; unquoted = refl; plain = refl }, refl, tt),
)

load_lines_roundtrip_example :
    ((load_lines 1 [] (map render_line lines) environ).0 ≡ ok (names lines))
    × ((k : String)
        → lookup k (load_lines 1 [] (map render_line lines) environ).1
          ≡ or_else (lookup k environ) (lookup k lines))
load_lines_roundtrip_example = load_lines_roundtrip lines environ lines-Writable
