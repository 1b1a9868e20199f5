-- ===== src/Chain/Fitting.antt =====
-- backend.py: what `validate_round` has checked when it returns.
use mt.Base.{false, not, ◌&&◌, ◌||◌, ◌≡◌, ℤ, pos, ◌<ℤ◌, ◌≤ℤ◌, int_ltb, int_leb, arith}
use mt.Errors.{ok}
use mt.System.Rules.{Hoare, Any, Hoare-bind, Hoare-pure, Hoare-raise, Hoare-refuse, Hoare-post}
use mt.Models.{RoundWindow}
use mt.Config.{Config}
use mt.Chain.Client.{
  Client, Selfcheck, values, invalid, Declared, check_declared, declared, check_ceiling,
  validate_round,
}
use mt.Chain.Rules.{given, Hoare-raise_if}
use mt.Chain.Answers.{From, Hoare-ask}

module _ {W : Type 0} (v : Client W) where
  -- The values of the selfcheck are positive and within the ceilings of the round, and so is the size
  -- of what is published.
  pub record IsFitting (w : RoundWindow) (o : W) : Type 0 where
    pub declared : Declared
    pub read : (v.selfcheck o).0 ≡ ok (values declared)
    pub size_positive : pos 0 <ℤ declared.size_bytes
    pub rss_positive : pos 0 <ℤ declared.peak_rss_bytes
    pub p95_positive : pos 0 <ℤ declared.p95_latency_ms
    pub size : declared.size_bytes ≤ℤ w.max_size_bytes
    pub rss : declared.peak_rss_bytes ≤ℤ w.max_rss_bytes
    pub p95 : declared.p95_latency_ms ≤ℤ w.max_p95_ms
    pub total : ℤ
    pub measured : (v.artifact_total_bytes (v.selfcheck o).1).0 ≡ ok total
    pub total_size : total ≤ℤ w.max_size_bytes

  module _ (c : Config) (w : RoundWindow) where
    abbrev Positive : Declared → Type 0
    Positive d =
        (int_leb d.size_bytes (pos 0)
          || int_leb d.peak_rss_bytes (pos 0)
          || int_leb d.p95_latency_ms (pos 0))
        ≡ false

    -- What the selfcheck says, and the world behind it.
    abbrev Checked : W → Selfcheck → Type 0
    Checked o r = (v.selfcheck o).0 ≡ ok r

    check_declared-Positive :
        (r : Selfcheck) (o after : W)
        → Checked o r
        → Hoare Any
            (From after)
            (check_declared v c r)
            (λ d s. (Checked o (values d) × Positive d) × From after s)
    unfolding check_declared
    check_declared-Positive (invalid text) o after read = Hoare-raise _ _
    check_declared-Positive (values d) o after read =
        Hoare-refuse _ _ _ λ positive. Hoare-pure d λ s q. ((read, positive), q)

    declared-Positive :
        (o : W)
        → Hoare Any
            (From o)
            (declared v c)
            (λ d s. (Checked o (values d) × Positive d) × From (v.selfcheck o).1 s)
    unfolding declared
    declared-Positive o =
        Hoare-bind (Hoare-ask v.selfcheck o) λ r. given λ read. check_declared-Positive r o _ read

    ceiling_holds :
        (value ceiling : ℤ)
        → pos 0 <ℤ ceiling
        → (not (int_leb ceiling (pos 0)) && int_ltb ceiling value) ≡ false
        → value ≤ℤ ceiling
    ceiling_holds value ceiling there e = ground arith

    total_holds :
        (total ceiling : ℤ)
        → pos 0 <ℤ ceiling
        → (int_ltb (pos 0) ceiling && int_ltb ceiling total) ≡ false
        → total ≤ℤ ceiling
    total_holds total ceiling there e = ground arith

    positives :
        (d : Declared)
        → Positive d
        → (pos 0 <ℤ d.size_bytes) × ((pos 0 <ℤ d.peak_rss_bytes) × (pos 0 <ℤ d.p95_latency_ms))
    positives d e = ground arith

    -- A round that passed, with its three ceilings, is fitted.
    pub validate_round-IsFitting :
        pos 0 <ℤ w.max_size_bytes
        → pos 0 <ℤ w.max_rss_bytes
        → pos 0 <ℤ w.max_p95_ms
        → (o : W) → Hoare Any (From o) (validate_round v c w) (λ _ _. IsFitting w o)
    unfolding validate_round check_ceiling
    validate_round-IsFitting size rss p95 o = Hoare-bind (declared-Positive o) λ d.
        given λ (read, positive). Hoare-refuse _ _ _ λ s. Hoare-refuse _ _ _ λ r.
          Hoare-refuse _ _ _ λ l. Hoare-bind (Hoare-ask v.artifact_total_bytes _) λ total.
            given λ measured.
              Hoare-post
                {Q = λ _ _.
                  (int_ltb (pos 0) w.max_size_bytes && int_ltb w.max_size_bytes total) ≡ false}
                (λ _ _ t.
                  let (sizes, (peaks, latencies)) = positives d positive in
                  record {
                    declared = d;
                    read = read;
                    size_positive = sizes;
                    rss_positive = peaks;
                    p95_positive = latencies;
                    size = ceiling_holds _ _ size s;
                    rss = ceiling_holds _ _ rss r;
                    p95 = ceiling_holds _ _ p95 l;
                    total = total;
                    measured = measured;
                    total_size = total_holds _ _ size t;
                  })
                (Hoare-post (λ _ s q. q.0) (Hoare-raise_if _ _ _))
