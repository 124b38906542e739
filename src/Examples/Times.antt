-- ===== src/Examples/Times.antt =====
-- The attested times of an export at concrete inputs.
use sigillo.Common.{
  ℕ, ◌≡◌, refl, Option, none, some, List, [], ◌∷◌, length, ◌==◌, replicate, if◌then◌else◌,
}
use sigillo.Text.{Text, codes}
use sigillo.Anchoring.{ReceiptTime, CheckpointTimes, end_of, format_duration}

-- A time is as many characters as it has milliseconds.
abbrev parse_time : Text → Option ℕ
parse_time text = if length text == 0 then none else some (length text)

abbrev three_receipts : List ReceiptTime
three_receipts =
    record { seq = 4; received = 10 }
    ∷ record { seq = 5; received = 20 }
    ∷ record { seq = 6; received = 30 }
    ∷ []

-- The larger tree first, and one without a time.
abbrev three_checkpoints : List CheckpointTimes
three_checkpoints =
    record { line = 1; tree_size = 6; ts = replicate 20 0; gen_times = replicate 40 0 ∷ [] ∷ [] }
    ∷ record { line = 2; tree_size = 5; ts = replicate 10 0; gen_times = replicate 15 0 ∷ [] }
    ∷ record { line = 3; tree_size = 7; ts = replicate 30 0; gen_times = [] }
    ∷ []

end_of-three_receipts : end_of three_receipts ≡ 7
unfolding end_of
end_of-three_receipts = refl

a_day_and_three_hours : format_duration 97200000 ≡ codes "1 day 3 h"
unfolding format_duration sigillo.Verifier.Indices.decimal
a_day_and_three_hours = refl
