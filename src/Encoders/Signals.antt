-- ===== src/Encoders/Signals.antt =====
-- What encoders read of their configuration (app/firmware/src/database/shared/config.h), and the
-- parts of the zlibs library that they call, which are parameters.
use open_deck.Prelude.{ℕ, ◌≤◌, ◌≡◌, Bool, min, max}

-- `database::Config::Section::Encoder`
pub data Section : Type 0 where
  enable invert mode midi_id_1 channel acceleration remote_sync : Section
  lower_limit upper_limit repeated_value midi_id_2 : Section

-- `Database::read` for one section and index
abbrev pub Config : Type 0
Config = Section → ℕ → ℕ

-- `bit_read` and `constrain` of zlibs::utils::misc, and the greatest values of zlibs::utils::midi
pub record Zlibs : Type 0 where
  pub bit_read : ℕ → ℕ → Bool
  pub constrain : ℕ → ℕ → ℕ → ℕ
  pub max_value_7bit : ℕ
  pub max_value_14bit : ℕ

-- A value is constrained to an interval that is not empty.
abbrev pub Constrains : Zlibs → Type 0
Constrains z =
    (value lower upper : ℕ)
    → lower ≤ upper
    → z.constrain value lower upper ≡ max lower (min value upper)
