-- ===== src/Result.antt =====
-- core/error.h: Result and the operators that take one apart. An error code is its number, 0 for none.
use magio.Prelude.{ℕ, Bool, Option, List, ◌==◌, if◌then◌else◌, not}

pub record Result {ℓ} (A : Type ℓ) : Type ℓ where
  pub value : A
  pub ec : ℕ

-- `Result(T&&, std::error_code)`.
abbrev pub of_value {ℓ} : {A : Type ℓ} → A → ℕ → Result A
of_value a ec = record { value = a; ec = ec }

-- `Result(std::error_code)`: the value is `T()`, the first argument.
abbrev pub of_code {ℓ} : {A : Type ℓ} → A → ℕ → Result A
of_code default ec = record { value = default; ec = ec }

-- `if (ec)`.
abbrev pub is_error : ℕ → Bool
is_error ec = not (ec == 0)

-- `| redirect_err(ec)`: the value, and what `ec` is afterwards.
abbrev pub redirect_err {ℓ} : {A : Type ℓ} → Result A → A × ℕ
redirect_err r = (r.value, r.ec)

-- `| as_tuple`.
abbrev pub as_tuple {ℓ} : {A : Type ℓ} → Result A → A × ℕ
as_tuple r = (r.value, r.ec)

-- How an expression ends: with a value, with `std::system_error`, or in `std::terminate` after it
-- printed the prefix, if any, and the message of the code.
data Ended {ℓ} (A : Type ℓ) : Type ℓ where
  returned : A → Ended A
  thrown : (ec : ℕ) → Ended A
  terminated : (prefix : Option (List ℕ)) (message : List ℕ) → Ended A

-- `| throw_on_err`.
throw_on_err {ℓ} : {A : Type ℓ} → Result A → Ended A
throw_on_err r = if is_error r.ec then thrown r.ec else returned r.value

-- `| expect(prefix)`, and `| panic_on_err` without a prefix; `message` is of the category of the code.
panic_on_err {ℓ} :
    {A : Type ℓ} → (message : ℕ → List ℕ) (prefix : Option (List ℕ)) → Result A → Ended A
panic_on_err message prefix r =
    if is_error r.ec then terminated prefix (message r.ec) else returned r.value
