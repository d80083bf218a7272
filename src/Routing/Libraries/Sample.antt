-- ===== src/Routing/Libraries/Sample.antt =====
-- A concrete choice of the third-party operations, for tests: numbers are natural, a pattern is
-- looked for as it stands, and a text of digits is the only JSON that parses.
use mathlib.Core.Option
use apimock_rs.Prelude.{ℕ, Bool, false, ◌&&◌, none, some, ltb, leb, ◌==◌, if◌then◌else◌}
use apimock_rs.Prelude.Int.{pos}
use apimock_rs.Prelude.Text.{Text, codes, contains, text_eq, parse_usize}
use apimock_rs.Routing.Json.{Json, number, string}
use apimock_rs.Routing.Libraries.{Libraries}

abbrev printed : Json ℕ → Text
printed (number n) = codes "a number"
printed (string s) = s
printed _ = codes "a value"

abbrev same_scalar : Json ℕ → Json ℕ → Bool
same_scalar (number m) (number n) = m == n
same_scalar (string s) (string t) = text_eq s t
same_scalar _ _ = false

abbrev pub sample : Libraries
sample = record {
  Number = ℕ;
  Float = ℕ;
  as_i64 = λ n. some (pos n);
  as_f64 = λ n. some n;
  parse_f64 = parse_usize;
  float_near = λ l r. l == r;
  float_lt = ltb;
  float_le = leb;
  new_regex = λ pattern. some (λ text. contains text pattern);
  from_str = λ s. Option.map number (parse_usize s);
  to_text = printed;
  json_eq = same_scalar;
  from_u16 = λ n. if leb 100 n && ltb n 1000 then some n else none;
}
