-- ===== src/Transport/Errors/Tests.antt =====
-- The names of errors.
use com_lib.Transport.{not_open}
use com_lib.Transport.Errors.{ErrorCategory, ErrorSeverity, code_to_string, to_string-injective}
use com_lib.Prelude.{◌≡◌, refl}

not_open_read_back :
    (not_open ≡ not_open)
    × (ErrorCategory.connection ≡ ErrorCategory.connection)
    × (ErrorSeverity.warning ≡ ErrorSeverity.warning)
not_open_read_back =
    to_string-injective not_open not_open ErrorCategory.connection ErrorCategory.connection
      ErrorSeverity.warning ErrorSeverity.warning refl refl refl

not_open_name : code_to_string not_open ≡ "NotOpen"
unfolding code_to_string
not_open_name = refl
