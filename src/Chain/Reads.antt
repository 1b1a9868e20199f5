-- ===== src/Chain/Reads.antt =====
-- backend.py: the reads of the commitment that `verify_on_chain` makes.
use mt.Base.{ℕ, zero, suc, ◌<◌, String, ◌≡◌, pos, arith}
use mt.Errors.{Result, ok}
use mt.Chain.Client.{Client}

module _ {W : Type 0} (v : Client W) (hotkey : String) where
  -- The world behind a read of the commitment and the pause after it.
  abbrev pub slept : W → Result (Unit {0}) × W
  slept o = v.sleep (pos 12) (v.commitment hotkey o).1

  -- The world before a read, when every earlier read and the pause behind it returned.
  abbrev pub reading : ℕ → W → W
  reading zero o = o
  reading (suc i) o = reading i (slept o).1

  -- The read and the pause behind it returned.
  pub record IsAnswered (o : W) : Type 0 where
    pub text : String
    pub read : (v.commitment hotkey o).0 ≡ ok text
    pub paused : (slept o).0 ≡ ok tt

  -- One of the first reads gives the expected commitment, and nothing before it was raised.
  pub record IsSeen (expected : String) (attempts : ℕ) (o : W) : Type 0 where
    pub index : ℕ
    pub within : index < attempts
    pub seen : (v.commitment hotkey (reading index o)).0 ≡ ok expected
    pub earlier : (j : ℕ) → j < index → IsAnswered (reading j o)

  pub first :
      {expected : String} (left : ℕ) (o : W)
      → (v.commitment hotkey o).0 ≡ ok expected
      → IsSeen expected (suc left) o
  first left o e = record {
    index = 0;
    within = omega arith;
    seen = e;
    earlier = λ j lt. absurd (omega arith);
  }

  shifted :
      (i : ℕ) (o : W)
      → IsAnswered o
      → ((j : ℕ) → j < i → IsAnswered (reading j (slept o).1))
      → (j : ℕ) → j < suc i
      → IsAnswered (reading j o)
  shifted i o a f zero lt = a
  shifted i o a f (suc j) lt = f j (omega arith)

  pub later :
      {expected : String} (left : ℕ) (o : W)
      → IsAnswered o
      → IsSeen expected left (slept o).1
      → IsSeen expected (suc left) o
  later left o a s = record {
    index = suc s.index;
    within = (let lt = s.within in omega arith);
    seen = s.seen;
    earlier = shifted s.index o a s.earlier;
  }
