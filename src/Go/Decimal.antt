-- ===== src/Go/Decimal.antt =====
-- `fmt.Sprintf("%d", n)` of an int64.
use backsnap.Base.{ℕ, zero, suc, ◌+◌, ◌/◌, ◌%◌, ◌≡◌, refl, String, ◌<>◌, ltb, if◌then◌else◌}
use backsnap.Base.Int.{ℤ, pos, negsuc}

digit : ℕ → String
digit zero = "0"
digit (suc zero) = "1"
digit (suc (suc zero)) = "2"
digit (suc (suc (suc zero))) = "3"
digit (suc (suc (suc (suc zero)))) = "4"
digit (suc (suc (suc (suc (suc zero))))) = "5"
digit (suc (suc (suc (suc (suc (suc zero)))))) = "6"
digit (suc (suc (suc (suc (suc (suc (suc zero))))))) = "7"
digit (suc (suc (suc (suc (suc (suc (suc (suc zero)))))))) = "8"
digit _ = "9"

-- One round for each digit; `n` rounds are more than it has digits.
digits_fuel : ℕ → ℕ → String
digits_fuel zero n = digit (n % 10)
digits_fuel (suc fuel) n =
    let rest = digits_fuel fuel (n / 10) in if ltb n 10 then digit n else rest <> digit (n % 10)

unfoldable pub decimal : ℤ → String
unfolding digits_fuel digit
decimal (pos n) = digits_fuel n n
decimal (negsuc n) = "-" <> digits_fuel (n + 1) (n + 1)

decimal_stamp : decimal (pos 1700000000) ≡ "1700000000"
unfolding decimal
decimal_stamp = refl

decimal_negative : decimal (negsuc 41) ≡ "-42"
unfolding decimal
decimal_negative = refl
