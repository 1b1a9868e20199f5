-- ===== src/Coordinator/Accept.antt =====
-- What a window that `validate_served_round` or `resolve_round` returned says of its inputs.
use mt.Base.{◌≡◌, refl, ◌<>◌, Bool, true, false, Option, none, some, ◌⊎◌, inl, inr, ℤ, arith}
use mt.Json.{Fields, Python, get, is_true}
use mt.Errors.{Result, ok, err, ◌>>=◌}
use mt.Errors.Ensures.{Ensures, Ensures-ok, Ensures-known, Ensures-bind, Ensures-refuse}
use mt.Models.{RoundWindow}
use mt.Coordinator.Fields.{nested}
use mt.Coordinator.Strict.{IsStrict}
use mt.Coordinator.Signed.{SignedFields}
use mt.Coordinator.Round.{Profile, Bounds, Served}
use mt.Coordinator.Follow.{Follows, with_default, check_history-Follows}
use mt.Coordinator.Profiled.{
  AllowsBase, IsProfiled, profile_fields-IsProfiled, profile_fields-present,
}
use mt.Coordinator.Resolve.{
  accepted_window, recover, fallback_window, validate_served_round, resolve_round,
}
use mt.Coordinator.Sound.{
  IsOpen, InWindow, served_bounds-InWindow, IsHashed, served_config-IsHashed, served_arena-opens,
  IsServed, IsCeiling, ceiling-IsCeiling,
}

-- The bounds of a window, as the status document remembers them.
abbrev pub bounds_of : RoundWindow → Bounds
bounds_of w = record {
  index = w.index;
  start = w.start_block;
  close = w.close_block;
  end_block = w.end_block;
  phase = w.phase;
}

-- The strict profile's fields of a window.
abbrev pub signed_of : RoundWindow → SignedFields
signed_of w = record {
  seed_block = w.seed_block;
  block_hash = w.block_hash;
  mechanism_version = w.mechanism_version;
  corpus_version = w.corpus_version;
  corpus_digest = w.corpus_digest;
  metric = w.metric;
  emission_share = w.emission_share;
  cpu_seconds_per_artifact = w.cpu_seconds_per_artifact;
  tasks_per_round = w.tasks_per_round;
  environment_digest = w.environment_digest;
}

pub record Accepted (py : Python) (p : Profile) (head : ℤ) (previous payload : Fields)
    (w : RoundWindow) : Type 0 where
  pub bounds : InWindow (bounds_of w) head
  pub stated : IsServed py payload (bounds_of w)
  pub source : w.source ≡ "coordinator"
  pub anchored : p.require_anchored ≡ true → is_true (get "anchored" payload) ≡ true
  pub served : Served
  pub hashed : IsHashed py payload served
  pub config_hash : w.config_hash ≡ served.config_hash
  pub opened : IsOpen p.track p.hardware_class (get "competitions" served.config)
  pub arena : Fields
  pub arranged :
      nested (get "arenas" served.config) (p.track <> "/" <> p.hardware_class) ≡ some arena
  pub size : IsCeiling p served.config arena "max_size_bytes" w.max_size_bytes
  pub rss : IsCeiling p served.config arena "max_rss_bytes" w.max_rss_bytes
  pub p95 : IsCeiling p served.config arena "max_p95_ms" w.max_p95_ms
  pub strict :
      p.strict_v030 ≡ true
      → IsStrict py payload served.config p.track p.hardware_class p.base_model arena (signed_of w)
  pub loose : p.strict_v030 ≡ false → AllowsBase p arena
  pub follows : Follows py p.strict_v030 previous (bounds_of w) w.config_hash (signed_of w)

-- The strict fields of the extended window are those of the profile, or the defaults.
module _ (py : Python) (p : Profile) (head : ℤ) (previous payload : Fields) (b : Bounds)
    (served : Served) (arena : Fields) (size rss p95 : ℤ)
    (i : InWindow b head × IsServed py payload b)
    (a : p.require_anchored ≡ true → is_true (get "anchored" payload) ≡ true)
    (h : IsHashed py payload served)
    (c : IsOpen p.track p.hardware_class (get "competitions" served.config)
      × (nested (get "arenas" served.config) (p.track <> "/" <> p.hardware_class) ≡ some arena))
    (l : IsCeiling p served.config arena "max_size_bytes" size
      × IsCeiling p served.config arena "max_rss_bytes" rss
      × IsCeiling p served.config arena "max_p95_ms" p95) where
  extend-Accepted :
      (o : Option SignedFields)
      → IsProfiled py p payload served.config arena o
      → ((v : SignedFields)
          → Follows py p.strict_v030 previous b served.config_hash (with_default o v))
      → Accepted py p head previous payload (accepted_window b served size rss p95 o)
  unfolding accepted_window
  extend-Accepted none k f = record {
    bounds = i.0;
    stated = i.1;
    source = refl;
    anchored = a;
    served = served;
    hashed = h;
    config_hash = refl;
    opened = c.0;
    arena = arena;
    arranged = c.1;
    size = l.0;
    rss = l.1;
    p95 = l.2;
    strict = λ s. absurd (k.strict s);
    loose = k.loose;
    follows = f _;
  }
  extend-Accepted (some v) k f = record {
    bounds = i.0;
    stated = i.1;
    source = refl;
    anchored = a;
    served = served;
    hashed = h;
    config_hash = refl;
    opened = c.0;
    arena = arena;
    arranged = c.1;
    size = l.0;
    rss = l.1;
    p95 = l.2;
    strict = k.strict;
    loose = k.loose;
    follows = f v;
  }

pub validate_served_round-Accepted :
    (py : Python) (p : Profile) (head : ℤ) (previous payload : Fields)
    → Ensures
        (Accepted py p head previous payload)
        (validate_served_round py p head previous payload)
unfolding validate_served_round
validate_served_round-Accepted py p head previous payload = Ensures-bind λ b hb.
    Ensures-refuse _ _ _ λ t. Ensures-bind λ served hs. Ensures-bind λ arena ha.
      Ensures-bind λ o ho. Ensures-bind λ size hz. Ensures-bind λ rss hr. Ensures-bind λ p95 hp.
        Ensures-bind λ k hk. Ensures-ok (
          extend-Accepted py p head previous payload b served arena size rss p95
            ((served_bounds-InWindow py payload head).holds b hb) (λ r. ground arith)
            ((served_config-IsHashed py payload).holds served hs)
            ((served_arena-opens p served.config).holds arena ha)
            (
              (ceiling-IsCeiling p served.config arena "max_size_bytes").holds size hz,
              (ceiling-IsCeiling p served.config arena "max_rss_bytes").holds rss hr,
              (ceiling-IsCeiling p served.config arena "max_p95_ms").holds p95 hp,
            )
            o ((profile_fields-IsProfiled py p payload served.config arena).holds o ho)
            λ v.
              (check_history-Follows py p.strict_v030 previous b served.config_hash o v
                  ((profile_fields-present py p payload served.config arena).holds o ho)).holds
                k hk)

recover-eq-ok :
    (allowed : Bool) (fallback : RoundWindow) (r : Result RoundWindow) {w : RoundWindow}
    → recover allowed fallback r ≡ ok w
    → (r ≡ ok w) ⊎ ((allowed ≡ true) × (w ≡ fallback))
recover-eq-ok allowed fallback (ok v) h = inl h
recover-eq-ok allowed fallback (err e) h = inr (ground arith)

-- A resolved round was accepted from the payload that was served, or is the schedule of the chain where
-- the fallback is allowed and the strict profile is off. An accepted one has its index, blocks and phase
-- from the payload, and they are around the head; the served config has the stated hash, opens the
-- competition and states the ceilings, which are positive; an anchor is stated where one is asked for;
-- no earlier round comes back, and an observed one is the same; the strict profile is the one that
-- `IsStrict` lists, and outside it the base model, where one is set, is on the arena's list.
pub resolve_round_sound :
    (py : Python) (p : Profile) (allow : Bool) (head : ℤ) (chain_round : RoundWindow)
    (previous : Fields) (fetched : Result Fields) {w : RoundWindow}
    → resolve_round py p allow head chain_round previous fetched ≡ ok w
    → ((payload : Fields) × (fetched ≡ ok payload) × Accepted py p head previous payload w)
      ⊎ ((p.strict_v030 ≡ false) × (allow ≡ true) × (w ≡ fallback_window head chain_round))
unfolding resolve_round
resolve_round_sound py p allow head chain_round previous fetched h =
    elim (recover-eq-ok _ _ (fetched >>= validate_served_round py p head previous) h) [
      | inl served ↦ inl (Ensures.holds (accepted fetched) _ served)
      | inr (allowed, same) ↦ inr (ground arith)
    ]
  where
    accepted :
        (f : Result Fields)
        → Ensures
            (λ w. (payload : Fields) × (f ≡ ok payload) × Accepted py p head previous payload w)
            (f >>= validate_served_round py p head previous)
    accepted f = Ensures-bind λ payload got.
        Ensures-known λ w e.
          (payload, got, (validate_served_round-Accepted py p head previous payload).holds w e)
