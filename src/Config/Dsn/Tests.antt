-- ===== src/Config/Dsn/Tests.antt =====
-- A data source name that asks for parseTime in the wrong case.
use octo_speech.Prelude.{
  ◌≡◌, refl, true, false, some, none, [], ◌∷◌, Text, codes, text_eq, if◌then◌else◌,
}
use octo_speech.Config.Dsn.{Dsn, Driver, local, dsn_has_param}

abbrev given : Text
given = codes "u@/db?ParseTime=false&a=b"

abbrev printed : Text
printed = codes "u@/db?loc=Local&parseTime=true&a=b"

abbrev parsed : Dsn Text
parsed = record {
  parse_time = false;
  loc = codes "UTC";
  params = (codes "ParseTime", codes "false") ∷ (codes "a", codes "b") ∷ [];
  rest = codes "u@/db";
}

abbrev adjusted : Dsn Text
adjusted = record {
  parse_time = true;
  loc = local;
  params = (codes "a", codes "b") ∷ [];
  rest = codes "u@/db";
}

-- A driver that knows the two names.
abbrev driver : Driver
driver = record {
  Rest = Text;
  parse_dsn = λ dsn.
      if text_eq dsn given
      then some parsed
      else (if text_eq dsn printed then some adjusted else none);
  format_dsn = λ c. printed;
}

has_loc : dsn_has_param (codes "u@/db?a=b&loc=UTC") (codes "loc") ≡ true
unfolding dsn_has_param text_eq
has_loc = refl
