-- ===== src/Users/Service/EmailCode/Digits.antt =====
-- The digits of a code, of user/service/email-change-code.ts.
use api_user.Prelude.{
  ℕ, zero, suc, ◌+◌, ◌-◌, ◌*◌, ◌/◌, ◌%◌, ◌≤◌, ◌<◌, ◌≡◌, refl, ◌∙◌, Bool, true, List, [], ◌∷◌, ◌++◌,
  length, replicate, every, ltb, arith, Bool-cases, inl, inr,
}
use api_user.Users.Service.EmailCode.{decimal, pad_start, generate_email_change_code}

-- The number that digits write, after a number.
abbrev read : ℕ → List ℕ → ℕ
read n [] = n
read n (d ∷ ds) = read (n * 10 + d) ds

-- The number that digits write.
abbrev pub number : List ℕ → ℕ
number ds = read 0 ds

abbrev pub is_digit : ℕ → Bool
is_digit d = ltb d 10

read-++ : (n : ℕ) (xs ys : List ℕ) → read n (xs ++ ys) ≡ read (read n xs) ys
read-++ n [] ys = refl
read-++ n (x ∷ xs) ys = read-++ (n * 10 + x) xs ys

read-pad : (k : ℕ) (ds : List ℕ) → read 0 (replicate k 0 ++ ds) ≡ read 0 ds
read-pad zero ds = refl
read-pad (suc k) ds = read-pad k ds

length-++ : (xs ys : List ℕ) → length (xs ++ ys) ≡ length xs + length ys
length-++ [] ys = omega arith
length-++ (x ∷ xs) ys = omega (arith, length-++ xs ys)

length-replicate : (k : ℕ) → length {A = ℕ} (replicate k 0) ≡ k
length-replicate zero = refl
length-replicate (suc k) = omega (arith, length-replicate k)

every-++ :
    (xs ys : List ℕ)
    → every is_digit xs ≡ true
    → every is_digit ys ≡ true
    → every is_digit (xs ++ ys) ≡ true
every-++ [] ys h h' = h'
every-++ (x ∷ xs) ys h h' = ground (arith, every-++ xs ys (ground arith) h')

every-replicate : (k : ℕ) → every is_digit (replicate k 0) ≡ true
every-replicate zero = refl
every-replicate (suc k) = every-replicate k

-- With a round for each digit, `decimal` writes the number, in as many digits at most.
record Written (fuel n : ℕ) (ds : List ℕ) : Type 0 where
  number : number ds ≡ n
  digits : every is_digit ds ≡ true
  short : length ds ≤ suc fuel

-- The numbers of `suc k` digits are below this.
abbrev limit : ℕ → ℕ
limit zero = 10
limit (suc k) = 10 * limit k

decimal-Written : (fuel n : ℕ) → n < limit fuel → Written fuel n (decimal fuel n)
unfolding decimal
decimal-Written zero n h = record {
  number = omega arith;
  digits = ground arith;
  short = omega arith;
}
decimal-Written (suc fuel) n h = elim (Bool-cases (ltb n 10)) [
  | inl small ↦
      rw small (record { number = omega arith; digits = ground arith; short = omega arith })
  | inr large ↦
      let rest = decimal-Written fuel (n / 10) (omega arith) in
      rw large (record {
        number = read-++ 0 (decimal fuel (n / 10)) ((n % 10) ∷ []) ∙ omega (arith, rest.number);
        digits = every-++ (decimal fuel (n / 10)) ((n % 10) ∷ []) rest.digits (ground arith);
        short = omega (arith, length-++ (decimal fuel (n / 10)) ((n % 10) ∷ []), rest.short);
      })
]

-- The code for a number below 10 ^ 6 has six digits, which write that number: every number that is
-- drawn has a code, and no two numbers share one.
pub generate_email_change_code-number :
    (n : ℕ)
    → n < 1000000
    → (length (generate_email_change_code n) ≡ 6)
      × (every is_digit (generate_email_change_code n) ≡ true)
      × (number (generate_email_change_code n) ≡ n)
unfolding generate_email_change_code pad_start
generate_email_change_code-number n h =
    let ds = decimal 5 n in
    let written = decimal-Written 5 n h in
    let zeros = replicate (6 - length ds) 0 in
    (
      omega (arith, length-++ zeros ds, length-replicate (6 - length ds), written.short),
      every-++ zeros ds (every-replicate (6 - length ds)) written.digits,
      read-pad (6 - length ds) ds ∙ written.number,
    )
