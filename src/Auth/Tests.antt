-- ===== src/Auth/Tests.antt =====
-- src/auth.rs at concrete inputs; a concatenation stands for the HMAC.
use girth.Prelude.{ℕ, List, [], ◌∷◌, ◌++◌}

abbrev joined : List ℕ → List ℕ → List ℕ
joined key message = key ++ message

abbrev send_mode : List ℕ
send_mode = 115 ∷ []

abbrev object_name : List ℕ
object_name = 9 ∷ 8 ∷ []

abbrev public_key : List ℕ
public_key = 4 ∷ []

abbrev session_id : ℕ
session_id = 42
