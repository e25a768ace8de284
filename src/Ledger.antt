-- ===== src/Ledger.antt =====
-- agent/ledger.py: the assignment of a cohort. A float of [0, 1] is a number of millionths, and the
-- comparison of the quotient with it is that of the exact numbers.
use Prim.Native.Char.{code}
use downtime_aware_recovery.Common.{
  ℕ, zero, suc, ◌+◌, ◌-◌, ◌*◌, String, ltb, leb, [], ◌∷◌, if◌then◌else◌,
}
use downtime_aware_recovery.Models.Enums.{Cohort, treated, holdout}
use downtime_aware_recovery.Models.Verdict.{concat, decimal}
use downtime_aware_recovery.Store.{Env}
use downtime_aware_recovery.Store.Exec.{Result, ok, err, value_error}

abbrev hex_digit : ℕ → ℕ
hex_digit c = if leb c b'9' then c - b'0' else c - b'a' + 10

-- `int(digest[:n], 16)`, on a text of lower-case hexadecimal digits.
unfoldable pub hex_prefix : ℕ → ℕ → String → ℕ
hex_prefix zero acc s = acc
hex_prefix (suc n) acc String.[] = acc
hex_prefix (suc n) acc (String.◌∷◌ c s) = hex_prefix n (acc * 16 + hex_digit (code c)) s

-- `int(digest[:8], 16)`, for the digest of the seed and the case id.
unfoldable pub draw_of : Env → ℕ → String → ℕ
unfolding hex_prefix
draw_of env seed case_id = hex_prefix 8 0 (env.sha256 (concat (decimal seed ∷ ":" ∷ case_id ∷ [])))

abbrev pub scale : ℕ
scale = 0xffffffff

unfoldable pub assign_cohort : Env → String → ℕ → ℕ → Result Cohort
assign_cohort env case_id seed fraction =
    if leb fraction 1000000
    then ok
        (if ltb (draw_of env seed case_id * 1000000) (fraction * scale) then holdout else treated)
    else err value_error
