-- ===== src/Error.antt =====
-- src/error.rs: the errors of a transfer, and their classification. Texts are their bytes.
pub mod Classify
mod Tests
use girth.Prelude.{ℕ, Bool, true, false, ◌||◌, List, ◌++◌, if◌then◌else◌}
use girth.Shared.Text.{text, to_ascii_lowercase, contains}

-- The kinds of `io::Error` that the program tells apart, and the others.
pub data ErrorKind : Type 0 where
  timed_out would_block not_found unexpected_eof connection_reset : ErrorKind
  invalid_input invalid_data addr_not_available other_kind : ErrorKind

-- `io::Error`: its kind and what it displays.
pub record IoError : Type 0 where
  pub kind : ErrorKind
  pub message : List ℕ

-- `io::Error::other`
abbrev pub other_error : List ℕ → IoError
other_error m = record { kind = ErrorKind.other_kind; message = m }

pub data GirthError : Type 0 where
  timeout stopped auth_denied not_found version_mismatch integrity : GirthError
  protocol : List ℕ → GirthError
  io : IoError → GirthError

unfoldable pub is_retryable : GirthError → Bool
is_retryable timeout = true
is_retryable _ = false

abbrev pub names_auth : List ℕ → Bool
names_auth m =
    contains m (text "auth") || contains m (text "denied") || contains m (text "unauthorized")

abbrev pub names_missing : List ℕ → Bool
names_missing m =
    contains m (text "no such file")
    || contains m (text "not found")
    || contains m (text "notfound")

unfoldable pub from_server_err : List ℕ → GirthError
from_server_err msg =
    let m = to_ascii_lowercase msg in
    if contains m (text "version mismatch")
    then version_mismatch
    else (if names_auth m
        then auth_denied
        else (if names_missing m then GirthError.not_found else protocol msg))

-- `Display`
unfoldable pub display : GirthError → List ℕ
display timeout = text "transfer timed out"
display stopped = text "transfer cancelled"
display auth_denied = text "authentication denied"
display GirthError.not_found = text "object not found"
display version_mismatch = text "protocol version mismatch"
display integrity = text "integrity check failed (crc32c mismatch)"
display (protocol s) = text "protocol error: " ++ s
display (io e) = text "io error: " ++ e.message

-- `From<io::Error>`
unfoldable pub from_io : IoError → GirthError
from_io e = elim e.kind [
  | ErrorKind.timed_out ↦ timeout
  | ErrorKind.would_block ↦ timeout
  | ErrorKind.not_found ↦ GirthError.not_found
  | _ ↦ io e
]

-- `From<GirthError> for io::Error`
unfoldable pub to_io : GirthError → IoError
unfolding display
to_io (io e) = e
to_io e = other_error (display e)
