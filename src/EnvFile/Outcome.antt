-- ===== src/EnvFile/Outcome.antt =====
-- envfile.py: the environment after `load_env_file`, and what it raises.
use mt.Base.{ℕ, String, ◌≡◌, ◌⊎◌, inl, Option, none, some, List, []}
use mt.Errors.{Result, ok, err}
use mt.System.{Sys}
use mt.Protected.{Disk, read_root_service_file}
use mt.EnvFile.{Environ, lookup, splitlines, outcome, with_bytes, at_path, load_env_file}
use mt.EnvFile.Wins.{IsClean, load_lines-keeps, load_lines-IsClean}

module _ {W : Type 0} (d : Disk W) (decode : List ℕ → Option String)
    (resolve : String → Result String) (path : String) (env : Environ) (s : Sys W) where
  -- A variable that was there before the file was read keeps its value, however the loading ends.
  pub load_env_file-keeps :
      (k v : String)
      → lookup k env ≡ some v
      → lookup k (load_env_file d decode resolve path env s).1 ≡ some v
  unfolding load_env_file
  load_env_file-keeps k v e = by_path (resolve path)
    where
      by_text : (o : Option String) → lookup k (outcome d decode resolve o env).1 ≡ some v
      by_text none = e
      by_text (some raw) = load_lines-keeps 1 [] (splitlines raw) env k v e

      by_read :
          (r : Result (Option (List ℕ)) × Sys W)
          → lookup k (with_bytes d decode resolve env r).1 ≡ some v
      by_read (ok none, t) = e
      by_read (ok (some bytes), t) = by_text (decode bytes)
      by_read (err f, t) = e

      by_path : (r : Result String) → lookup k (at_path d decode resolve env s r).1 ≡ some v
      by_path (ok p) = by_read (read_root_service_file d "environment file" 65536 p s)
      by_path (err f) = e

  -- Every variable after the loading was there before with that value, or has the name of an
  -- environment variable and a value without quotes, edge whitespace and shell characters, however the
  -- loading ends.
  pub load_env_file-IsClean :
      (k v : String)
      → lookup k (load_env_file d decode resolve path env s).1 ≡ some v
      → (lookup k env ≡ some v) ⊎ IsClean k v
  unfolding load_env_file
  load_env_file-IsClean k v = by_path (resolve path)
    where
      by_text :
          (o : Option String)
          → lookup k (outcome d decode resolve o env).1 ≡ some v
          → (lookup k env ≡ some v) ⊎ IsClean k v
      by_text none e = inl e
      by_text (some raw) e = load_lines-IsClean 1 [] (splitlines raw) env k v e

      by_read :
          (r : Result (Option (List ℕ)) × Sys W)
          → lookup k (with_bytes d decode resolve env r).1 ≡ some v
          → (lookup k env ≡ some v) ⊎ IsClean k v
      by_read (ok none, t) e = inl e
      by_read (ok (some bytes), t) e = by_text (decode bytes) e
      by_read (err f, t) e = inl e

      by_path :
          (r : Result String)
          → lookup k (at_path d decode resolve env s r).1 ≡ some v
          → (lookup k env ≡ some v) ⊎ IsClean k v
      by_path (ok p) e = by_read (read_root_service_file d "environment file" 65536 p s) e
      by_path (err f) e = inl e
