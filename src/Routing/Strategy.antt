-- ===== src/Routing/Strategy.antt =====
-- crates/apimock-routing/src/strategy.rs: the strategies, their names, and the generator.
pub mod Names
use Prim.Native.Nat.{bit_xor}
use apimock_rs.Prelude.{
  ℕ, ◌*◌, ◌/◌, ◌%◌, ◌^◌, Option, none, some, List, [], ◌∷◌, ◌==◌, if◌then◌else◌, unwrap_or,
}
use apimock_rs.Prelude.Text.{Text, codes, text_eq}

pub data PriorityTiebreaker : Type 0 where
  first_match uniform_random : PriorityTiebreaker

pub data Strategy : Type 0 where
  first_match : Strategy
  uniform_random : Option ℕ → Strategy
  weighted_random : Option ℕ → Strategy
  priority : PriorityTiebreaker → Strategy
  round_robin : Strategy

-- `NAMES`.
abbrev pub names : List Text
names =
    codes "first_match"
    ∷ codes "round_robin"
    ∷ codes "uniform_random"
    ∷ codes "weighted_random"
    ∷ codes "priority"
    ∷ []

unfoldable pub from_bare_name : Text → Option Strategy
from_bare_name name =
    if text_eq name (codes "first_match")
    then some Strategy.first_match
    else if text_eq name (codes "round_robin")
    then some round_robin
    else if text_eq name (codes "uniform_random")
    then some (Strategy.uniform_random none)
    else if text_eq name (codes "weighted_random")
    then some (weighted_random none)
    else if text_eq name (codes "priority")
    then some (priority PriorityTiebreaker.first_match)
    else none

-- `Display for Strategy`.
unfoldable pub to_string : Strategy → Text
to_string Strategy.first_match = codes "first_match"
to_string (Strategy.uniform_random seed) = codes "uniform_random"
to_string (weighted_random seed) = codes "weighted_random"
to_string (priority tiebreaker) = codes "priority"
to_string round_robin = codes "round_robin"

abbrev pub u64_mod : ℕ
u64_mod = 2 ^ 64

-- `Xorshift64`, by its `u64` state.
unfoldable pub new_rng : ℕ → ℕ
new_rng seed = if seed == 0 then 0xdeadbeef_cafebabe else seed

-- `Xorshift64::next`: the new state is also the value.
unfoldable pub next : ℕ → ℕ
next x =
    let a = bit_xor x (x * 2 ^ 13 % u64_mod) in
    let b = bit_xor a (a / 2 ^ 7) in bit_xor b (b * 2 ^ 17 % u64_mod)

-- `Xorshift64::next_index`.
unfoldable pub next_index : ℕ → ℕ → ℕ
unfolding next
next_index rng len = next rng % len

abbrev clock_seed : Option ℕ → ℕ
clock_seed none = 0xc0ffee
clock_seed (some nanos) = nanos % u64_mod

-- `make_rng`. The clock is an argument: the nanoseconds since the epoch, `none` before it.
unfoldable pub make_rng : Option ℕ → Option ℕ → ℕ
unfolding new_rng
make_rng seed now = new_rng (unwrap_or seed (clock_seed now))
