-- ===== src/PvaScalar/Examples.antt =====
-- src/pva/value.rs, `py_to_scalar`: the parameter can be met, and examples.
use repics.Prelude.{◌≡◌, refl, true, ok}
use repics.Prelude.Int.{pos, negsuc}
use repics.PvaType.{byte, ubyte}
use repics.PvaScalar.{byte_value, ubyte_value, py_int, scalar_fits, py_to_scalar}
use repics.PvaScalar.Fitting.{py_to_scalar-fits}
use repics.PvaScalar.Plain.{plain_scalars}

wraps_byte : py_to_scalar plain_scalars (py_int (pos 200)) byte ≡ ok (byte_value (negsuc 55))
unfolding py_to_scalar
wraps_byte = refl

wraps_negative : py_to_scalar plain_scalars (py_int (negsuc 0)) ubyte ≡ ok (ubyte_value 255)
unfolding py_to_scalar
wraps_negative = refl

py_to_scalar-fits_example : scalar_fits byte (byte_value (negsuc 55)) ≡ true
py_to_scalar-fits_example =
    py_to_scalar-fits plain_scalars (py_int (pos 200)) byte (byte_value (negsuc 55)) wraps_byte
