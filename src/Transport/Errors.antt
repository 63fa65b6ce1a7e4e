-- ===== src/Transport/Errors.antt =====
-- The errors of include/comm/core/error.hpp and their names.
mod Tests
use Prim.Native.String.{String}
use text.Mathlib.Text.{◌==◌}
use com_lib.Transport.{
  ErrorCode, no_error, invalid_configuration, already_open, not_open, open_failed, close_failed,
  send_failed, receive_failed, timed_out, connection_lost, resource_unavailable,
  unsupported_operation, permission_denied, unknown_error,
}
use com_lib.Prelude.{
  ℕ, Bool, true, false, List, [], ◌∷◌, Option, none, some, if◌then◌else◌, ◌≡◌, refl, ap, sym, ◌∙◌,
}

pub data ErrorCategory : Type 0 where
  no_category system configuration connection transmission timeout protocol resource unknown :
      ErrorCategory

pub data ErrorSeverity : Type 0 where
  info warning recoverable critical : ErrorSeverity

-- `toString` of a code, of a category and of a severity.
unfoldable pub code_to_string : ErrorCode → String
code_to_string no_error = "None"
code_to_string invalid_configuration = "InvalidConfiguration"
code_to_string already_open = "AlreadyOpen"
code_to_string not_open = "NotOpen"
code_to_string open_failed = "OpenFailed"
code_to_string close_failed = "CloseFailed"
code_to_string send_failed = "SendFailed"
code_to_string receive_failed = "ReceiveFailed"
code_to_string timed_out = "Timeout"
code_to_string connection_lost = "ConnectionLost"
code_to_string resource_unavailable = "ResourceUnavailable"
code_to_string unsupported_operation = "UnsupportedOperation"
code_to_string permission_denied = "PermissionDenied"
code_to_string unknown_error = "Unknown"

unfoldable pub category_to_string : ErrorCategory → String
category_to_string ErrorCategory.no_category = "None"
category_to_string ErrorCategory.system = "System"
category_to_string ErrorCategory.configuration = "Configuration"
category_to_string ErrorCategory.connection = "Connection"
category_to_string ErrorCategory.transmission = "Transmission"
category_to_string ErrorCategory.timeout = "Timeout"
category_to_string ErrorCategory.protocol = "Protocol"
category_to_string ErrorCategory.resource = "Resource"
category_to_string ErrorCategory.unknown = "Unknown"

unfoldable pub severity_to_string : ErrorSeverity → String
severity_to_string ErrorSeverity.info = "Info"
severity_to_string ErrorSeverity.warning = "Warning"
severity_to_string ErrorSeverity.recoverable = "Recoverable"
severity_to_string ErrorSeverity.critical = "Critical"

-- The value that a table has for a name.
find {ℓ} : {A : Type ℓ} → String → List (String × A) → Option A
find name [] = none
find name ((n, a) ∷ table) = if n == name then some a else find name table

abbrev codes : List (String × ErrorCode)
codes =
    ("None", no_error)
    ∷ ("InvalidConfiguration", invalid_configuration)
    ∷ ("AlreadyOpen", already_open)
    ∷ ("NotOpen", not_open)
    ∷ ("OpenFailed", open_failed)
    ∷ ("CloseFailed", close_failed)
    ∷ ("SendFailed", send_failed)
    ∷ ("ReceiveFailed", receive_failed)
    ∷ ("Timeout", timed_out)
    ∷ ("ConnectionLost", connection_lost)
    ∷ ("ResourceUnavailable", resource_unavailable)
    ∷ ("UnsupportedOperation", unsupported_operation)
    ∷ ("PermissionDenied", permission_denied)
    ∷ ("Unknown", unknown_error)
    ∷ []

abbrev categories : List (String × ErrorCategory)
categories =
    ("None", ErrorCategory.no_category)
    ∷ ("System", ErrorCategory.system)
    ∷ ("Configuration", ErrorCategory.configuration)
    ∷ ("Connection", ErrorCategory.connection)
    ∷ ("Transmission", ErrorCategory.transmission)
    ∷ ("Timeout", ErrorCategory.timeout)
    ∷ ("Protocol", ErrorCategory.protocol)
    ∷ ("Resource", ErrorCategory.resource)
    ∷ ("Unknown", ErrorCategory.unknown)
    ∷ []

abbrev severities : List (String × ErrorSeverity)
severities =
    ("Info", ErrorSeverity.info)
    ∷ ("Warning", ErrorSeverity.warning)
    ∷ ("Recoverable", ErrorSeverity.recoverable)
    ∷ ("Critical", ErrorSeverity.critical)
    ∷ []

find-code_to_string : (c : ErrorCode) → find (code_to_string c) codes ≡ some c
unfolding find code_to_string
find-code_to_string no_error = refl
find-code_to_string invalid_configuration = refl
find-code_to_string already_open = refl
find-code_to_string not_open = refl
find-code_to_string open_failed = refl
find-code_to_string close_failed = refl
find-code_to_string send_failed = refl
find-code_to_string receive_failed = refl
find-code_to_string timed_out = refl
find-code_to_string connection_lost = refl
find-code_to_string resource_unavailable = refl
find-code_to_string unsupported_operation = refl
find-code_to_string permission_denied = refl
find-code_to_string unknown_error = refl

find-category_to_string : (c : ErrorCategory) → find (category_to_string c) categories ≡ some c
unfolding find category_to_string
find-category_to_string ErrorCategory.no_category = refl
find-category_to_string ErrorCategory.system = refl
find-category_to_string ErrorCategory.configuration = refl
find-category_to_string ErrorCategory.connection = refl
find-category_to_string ErrorCategory.transmission = refl
find-category_to_string ErrorCategory.timeout = refl
find-category_to_string ErrorCategory.protocol = refl
find-category_to_string ErrorCategory.resource = refl
find-category_to_string ErrorCategory.unknown = refl

find-severity_to_string : (s : ErrorSeverity) → find (severity_to_string s) severities ≡ some s
unfolding find severity_to_string
find-severity_to_string ErrorSeverity.info = refl
find-severity_to_string ErrorSeverity.warning = refl
find-severity_to_string ErrorSeverity.recoverable = refl
find-severity_to_string ErrorSeverity.critical = refl

some_of {ℓ} : {A : Type ℓ} {a b : A} → some a ≡ some b → a ≡ b
some_of e = cc

-- What a log shows of an error identifies it: from the three names of its code, category and severity
-- each can be read back.
pub to_string-injective :
    (c c' : ErrorCode) (k k' : ErrorCategory) (s s' : ErrorSeverity)
    → code_to_string c ≡ code_to_string c'
    → category_to_string k ≡ category_to_string k'
    → severity_to_string s ≡ severity_to_string s'
    → (c ≡ c') × (k ≡ k') × (s ≡ s')
to_string-injective c c' k k' s s' p q r = (
  some_of (sym (find-code_to_string c) ∙ ap (λ n. find n codes) p ∙ find-code_to_string c'),
  some_of (
      sym (find-category_to_string k) ∙ ap (λ n. find n categories) q ∙ find-category_to_string k'),
  some_of (
      sym (find-severity_to_string s) ∙ ap (λ n. find n severities) r ∙ find-severity_to_string s'),
)
