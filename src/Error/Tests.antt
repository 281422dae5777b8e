-- ===== src/Error/Tests.antt =====
-- src/error.rs at concrete texts.
use girth.Prelude.{◌≡◌, refl}
use girth.Shared.Text.{text, contains, to_ascii_lowercase}
use girth.Error.{GirthError, version_mismatch, from_server_err}
use girth.Error.Classify.{Classified, from_server_err-Classified}

version_text : from_server_err (text "Protocol Version Mismatch") ≡ version_mismatch
unfolding from_server_err contains to_ascii_lowercase
version_text = refl

missing_text :
    from_server_err (text "No such file or directory (os error 2)") ≡ GirthError.not_found
unfolding from_server_err contains to_ascii_lowercase
missing_text = refl

from_server_err-Classified_example :
    Classified (text "auth required") (from_server_err (text "auth required"))
from_server_err-Classified_example = from_server_err-Classified (text "auth required")
