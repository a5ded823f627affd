-- ===== src/LlmRouter/Float.antt =====
-- The floats of the complexity score (internal/llm/provider.go: `Complexity`).
use pre_code.Common.{ℕ, ◌+◌, ◌*◌, ◌/◌, ◌%◌, ltb, ◌==◌, if◌then◌else◌}

-- A float64 from 0 to 2 that has no bit below 2^-56 is a number of 2^-56, and a sum is
-- rounded to 53 significant bits, a tie to even. `ulp n` is the step of the floats near `n`.
abbrev pub ulp : ℕ → ℕ
ulp n =
    if ltb n 9007199254740992
    then 1
    else if ltb n 18014398509481984
    then 2
    else if ltb n 36028797018963968
    then 4
    else if ltb n 72057594037927936
    then 8
    else 16

-- `n` rounded to a multiple of `u`.
abbrev pub round_to : ℕ → ℕ → ℕ
round_to n u =
    let q = n / u in
    if ltb (2 * (n % u)) u
    then q * u
    else if ltb u (2 * (n % u))
    then (q + 1) * u
    else if q % 2 == 0
    then q * u
    else (q + 1) * u

-- `a + b` of two floats.
unfoldable pub float_add : ℕ → ℕ → ℕ
float_add a b = round_to (a + b) (ulp (a + b))

-- The constants of the source, as the compiler rounds them: 0.1, 0.15, and so on.
abbrev pub p10 : ℕ
p10 = 7205759403792794

abbrev pub p15 : ℕ
p15 = 10808639105689190

abbrev pub p20 : ℕ
p20 = 14411518807585588

abbrev pub p30 : ℕ
p30 = 21617278211378380

abbrev pub p50 : ℕ
p50 = 36028797018963968

abbrev pub p60 : ℕ
p60 = 43234556422756760

abbrev pub p70 : ℕ
p70 = 50440315826549552

abbrev pub p85 : ℕ
p85 = 61248954932238744

abbrev pub p100 : ℕ
p100 = 72057594037927936
