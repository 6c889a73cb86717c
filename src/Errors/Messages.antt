-- ===== src/Errors/Messages.antt =====
-- pkg/moqttransport/errors.go and retry.go: the two error types of the package, their constructors, causes
-- and texts. `show` is the text of an error that this code does not define.
use Prim.Native.String.{◌++◌ as joined}
use mcp_moqt_transport.Base.{ℕ, Bool, Option, none, some, String, str_eq, if◌then◌else◌}
use mcp_moqt_transport.Errors.{Error, sentinel, foreign, text, wrap, transport, retryable}

-- The new error is at the address.
unfoldable pub new_transport_error : ℕ → String → Error → Error
new_transport_error address op cause = transport address op "" cause

unfoldable pub new_transport_error_with_role : ℕ → String → String → Error → Error
new_transport_error_with_role address op role cause = transport address op role cause

unfoldable pub new_retryable_error : ℕ → Error → Bool → Error
new_retryable_error address cause again = retryable address again cause

-- `Unwrap` of the two types, and of what `fmt.Errorf` makes with `%w`.
unfoldable pub unwrap : Error → Option Error
unwrap (transport a op role e) = some e
unwrap (retryable a b e) = some e
unwrap (wrap m e) = some e
unwrap _ = none

-- `Error()`; a wrapped error's text is its message, a colon and the cause.
unfoldable pub error_text : (Error → String) → Error → String
error_text show (transport a op role e) =
    let cause = error_text show e in
    if str_eq role ""
    then joined (joined op ": ") cause
    else joined (joined (joined (joined op ": ") role) ": ") cause
error_text show (retryable a b e) = error_text show e
error_text show (wrap m e) = joined (joined m ": ") (error_text show e)
error_text show (sentinel s) = show (sentinel s)
error_text show (foreign n) = show (foreign n)
error_text show (text m) = m
