-- ===== src/Platform.antt =====
-- What the program takes from the Python runtime and does not define: floats with the two
-- comparisons and the prints `f"{x:.2f}"` and `f"{x:.0%}"` that the code applies to a confidence, SHA-256, and the
-- identifiers that `uuid4` hands out. Facts about them are hypotheses where a theorem needs them.
use gita.Base.{ℕ, String, Bool, leb, ltb}
use gita.Base.Text.{decimal}

pub record Platform : Type 1 where
  pub Float : Type 0
  pub lt : Float → Float → Bool
  pub le : Float → Float → Bool
  -- the literal that is written with the given number of hundredths: `hundredths 75` is 0.75
  pub hundredths : ℕ → Float
  pub fixed2 : Float → String
  pub percent : Float → String
  pub sha256 : String → String
  pub uuid : ℕ → String

-- A platform to run the model on: whole hundredths, and texts that are their own hash.
abbrev pub cents : Platform
cents = record {
  Float = ℕ;
  lt = ltb;
  le = leb;
  hundredths = λ n. n;
  fixed2 = decimal;
  percent = decimal;
  sha256 = λ s. s;
  uuid = decimal;
}
