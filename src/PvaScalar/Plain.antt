-- ===== src/PvaScalar/Plain.antt =====
-- src/pva/value.rs, `py_to_scalar`: what it asks of the libraries can be met.
use repics.Prelude.{◌≡◌, true, [], Option, none, some}
use repics.Prelude.Int.{pos}
use repics.Text.{Text}
use repics.PvaType.{ScalarType}
use repics.PvaScalar.{ScalarValue, ScalarLib, scalar_fits}

pub nothing_parses :
    (st : ScalarType) (s : Text) (v : ScalarValue)
    → Path (Option ScalarValue) none (some v)
    → scalar_fits st v ≡ true
nothing_parses st s v h = cc

abbrev pub plain_scalars : ScalarLib
plain_scalars = record {
  int_to_f32 = λ i. 0;
  int_to_f64 = λ i. 0;
  f64_to_f32 = λ f. f;
  f64_to_int = λ f. pos f;
  show_f64 = λ f. [];
  str_int = λ i. [];
  str_float = λ f. [];
  parse = λ st s. none;
  parse-fits = nothing_parses;
}
