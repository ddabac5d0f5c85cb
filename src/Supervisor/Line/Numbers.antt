-- ===== src/Supervisor/Line/Numbers.antt =====
-- A number that is written to the command line (native/javex_nif/src/worker.rs) is read back.
use javex.Base.{
  ℕ, zero, suc, ◌+◌, ◌*◌, ◌/◌, ◌%◌, ◌≤◌, ◌<◌, ◌≡◌, refl, ap, ◌∙◌, Bool-cases, Option, Option-cases,
  none, some, inl, inr, List, [], ◌∷◌, ◌++◌, ltb, ltb→le, ltb→lt, ◌==◌, arith, length,
  length-append,
}
use javex.Supervisor.Line.{push_digit, parse_digits, parse, digits, to_string}

eta : (o : Option ℕ) → (elim o [ none ↦ none | some m ↦ some m ]) ≡ o
eta none = refl
eta (some m) = refl

-- The last digit is pushed on what the others make.
parse_digits-append :
    (limit acc : ℕ) (xs : List ℕ) (n b : ℕ)
    → parse_digits limit acc xs ≡ some n
    → parse_digits limit acc (xs ++ b ∷ []) ≡ push_digit limit n b
unfolding parse_digits
parse_digits-append limit acc [] n b h =
    let same : acc ≡ n = ground (arith, h) in
    eta (push_digit limit acc b) ∙ ap (λ m. push_digit limit m b) same
parse_digits-append limit acc (x ∷ xs) n b h = elim (Option-cases (push_digit limit acc x)) [
  | inl bad ↦ absurd (ground (arith, h, bad))
  | inr (acc', good) ↦
      rw (parse_digits, good) (parse_digits-append limit acc' xs n b (ground (arith, h, good)))
]

push_digit-ok :
    (limit acc d : ℕ)
    → d < 10
    → acc * 10 + d < limit
    → push_digit limit acc (48 + d) ≡ some (acc * 10 + d)
unfolding push_digit
push_digit-ok limit acc d digit small = ground arith

parse_digits-digits :
    (fuel limit n : ℕ) → n < fuel → n < limit → parse_digits limit 0 (digits fuel n) ≡ some n
unfolding parse_digits digits
parse_digits-digits zero limit n enough small = absurd (omega (arith, enough))
parse_digits-digits (suc fuel) limit n enough small = elim (Bool-cases (ltb n 10)) [
  | inl one ↦
      rw
        (
          digits,
          one,
          parse_digits,
          push_digit-ok limit 0 n (ltb→lt n 10 one) (omega (arith, small)),
        )
        (ap (λ m. some m) (omega arith))
  | inr more ↦
      rw (digits, more)
        (parse_digits-append limit 0 (digits fuel (n / 10)) (n / 10) (48 + n % 10) (
            parse_digits-digits fuel limit (n / 10) (omega (arith, enough, ltb→le n 10 more))
              (omega (arith, small)))
          ∙ push_digit-ok limit (n / 10) (n % 10) (omega arith) (omega (arith, small))
          ∙ ap (λ m. some m) (omega arith))
]

digits_some : (fuel n : ℕ) → 1 ≤ length (digits (suc fuel) n)
unfolding digits
digits_some fuel n = elim (Bool-cases (ltb n 10)) [
  | inl one ↦ rw (digits, one) (omega arith)
  | inr more ↦
      rw (digits, more) (omega (arith, length-append (digits fuel (n / 10)) ((48 + n % 10) ∷ [])))
]

-- What begins with a digit has no sign.
parse-digits :
    (limit n : ℕ) (bytes : List ℕ)
    → 1 ≤ length bytes
    → parse_digits limit 0 bytes ≡ some n
    → parse limit bytes ≡ some n
unfolding parse parse_digits push_digit
parse-digits limit n [] some_ h = absurd (omega (arith, some_))
parse-digits limit n (b ∷ []) some_ h = h
parse-digits limit n (b ∷ c ∷ bytes) some_ h = elim (Bool-cases (b == 43)) [
  | inr digit ↦ rw (parse, digit) h
  | inl sign ↦ absurd (ground (arith, h, sign))
]

-- A number below the limit is read back as it was written.
pub parse-to_string : (limit n : ℕ) → n < limit → parse limit (to_string n) ≡ some n
parse-to_string limit n small =
    parse-digits limit n (to_string n) (digits_some n n)
      (parse_digits-digits (suc n) limit n (omega arith) small)
