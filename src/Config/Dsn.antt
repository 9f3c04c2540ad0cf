-- ===== src/Config/Dsn.antt =====
-- internal/dsnutil/dsnutil.go. The parser and the printer of the MySQL driver are arguments.
pub mod Parameters
pub mod Times
mod Tests
use octo_speech.Prelude.{
  ℕ, Bool, true, false, not, ◌==◌, Option, some, none, List, [], ◌∷◌, Text, codes, text_eq, map,
  is_empty, if◌then◌else◌, keep, leb, ◌&&◌, ◌+◌,
}

-- The fields of mysql.Config that the function reads or writes; `rest` stands for the others.
pub record Dsn (Rest : Type 0) : Type 0 where
  pub parse_time : Bool
  pub loc : Text
  pub params : List (Text × Text)
  pub rest : Rest

pub record Driver : Type 1 where
  pub Rest : Type 0
  pub parse_dsn : Text → Option (Dsn Rest)
  pub format_dsn : Dsn Rest → Text

-- time.Local, by its name
abbrev pub local : Text
local = codes "Local"

-- `s[i+1:]` for the first byte `b` in `s`, none if there is none
unfoldable pub after_byte : ℕ → Text → Option Text
after_byte b [] = none
after_byte b (c ∷ s) = if c == b then some s else after_byte b s

-- strings.Split(s, sep) for a separator of one byte
unfoldable pub split : ℕ → Text → List Text
split b [] = [] ∷ []
split b (c ∷ s) = elim (split b s) [
  | [] ↦ []
  | piece ∷ pieces ↦ if c == b then [] ∷ piece ∷ pieces else (c ∷ piece) ∷ pieces
]

-- `k, _, _ := strings.Cut(p, "=")`
unfoldable pub before_byte : ℕ → Text → Text
before_byte b [] = []
before_byte b (c ∷ s) = if c == b then [] else c ∷ before_byte b s

unfoldable pub has_key : Text → List Text → Bool
has_key key [] = false
has_key key (p ∷ ps) = if text_eq (before_byte b'=' p) key then true else has_key key ps

unfoldable pub dsn_has_param : Text → Text → Bool
unfolding after_byte split has_key before_byte
dsn_has_param dsn key = elim (after_byte b'?' dsn) [
  | none ↦ false
  | some params ↦ has_key key (split b'&' params)
]

-- strings.EqualFold(k, "parsetime"); no character outside ASCII folds to one of its letters but
-- U+017F, the long s.
unfoldable pub fold : ℕ → ℕ
fold c = if leb b'A' c && leb c b'Z' then c + 32 else if c == 0x17f then b's' else c

unfoldable pub is_parse_time : Text → Bool
unfolding fold
is_parse_time k = text_eq (map fold k) (codes "parsetime")

module _ (driver : Driver) where
  -- What is done to the configuration that was parsed.
  unfoldable pub adjust : Text → Dsn driver.Rest → Dsn driver.Rest
  adjust dsn cfg = record cfg {
    parse_time = true;
    loc = if dsn_has_param dsn (codes "loc") then cfg.loc else local;
    params = keep (λ p. not (is_parse_time p.0)) cfg.params;
  }

  unfoldable pub ensure_dsn_time_params : Text → Text
  unfolding adjust
  ensure_dsn_time_params dsn = if is_empty dsn then [] else elim (driver.parse_dsn dsn) [
    | none ↦ dsn
    | some cfg ↦ driver.format_dsn (adjust dsn cfg)
  ]
