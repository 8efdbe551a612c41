-- ===== src/PvaClient/Many/Examples.antt =====
-- src/pva/client.rs, `get_many`: two names, where the second read's task panics.
use repics.Prelude.{
  ℕ, zero, suc, ◌≡◌, refl, true, List, [], ◌∷◌, Option, none, some, ok, String, length,
}
use repics.Epics.Pvdata.{plain_pvdata}
use repics.PvaValue.{DescLib}
use repics.Runtime.Many.{
  outcome, join_all, bounded, to_entry, results_to_py, Entry, value, exception,
}
use repics.Text.{Text, codes, trim}
use repics.PvaClient.Config.{is_blank}
use repics.PvaClient.Many.{ClientLib, Ask, Answer, parse_request, asks, task, tasks, get_many}
use repics.PvaClient.Many.Entries.{Each, get_many-Each}

abbrev descriptors : DescLib plain_pvdata
descriptors = record {
  fields = λ d. none;
  total_bits = λ d. 1;
  bit_for_path = λ d p. some 0;
  total_bits-pos = λ d. (0, refl);
  bit_for_path-root = λ d. refl;
}

abbrev client : ClientLib plain_pvdata
client = record {
  Error = ℕ;
  JoinError = ℕ;
  Seconds = ℕ;
  Request = Text;
  parse = λ s. ok s;
  join_error = λ j. suc j;
  timed_out = λ s. s;
  wrong_count = 99;
  Object = ℕ;
  marked_changed_bitset = λ d paths. [];
}

abbrev answer : Option ℕ → Answer plain_pvdata client
answer panics = record {
  read = ok (record { desc = 1; value = 7; marked = none });
  before = λ s. true;
  panics = panics;
}

world : ℕ → Ask plain_pvdata client → Answer plain_pvdata client
world zero a = answer none
world (suc i) a = answer (some 3)

abbrev names : List String
names = "a" ∷ "b" ∷ []

abbrev requests : List (Option Text)
requests = none ∷ some (codes "field(value)") ∷ []

abbrev entries : List (Entry ℕ ℕ)
entries = value 7 ∷ exception 4 ∷ []

get_many-entries :
    get_many descriptors client (λ r. ok r.field) world names requests (some 5) ≡ ok entries
unfolding get_many asks parse_request trim results_to_py join_all outcome to_entry tasks task
    bounded world is_blank
get_many-entries = refl

get_many-Each_example :
    Each descriptors client (λ r. ok r.field) world (some 5) 0 names requests entries
    × (length names ≡ length requests)
get_many-Each_example =
    get_many-Each descriptors client (λ r. ok r.field) world (some 5) names requests
      {entries = entries} get_many-entries
