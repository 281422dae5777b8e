-- ===== src/Control/Tests.antt =====
-- The framing of src/control.rs over a concrete connection, which is the list of its bytes.
use girth.Prelude.{
  ℕ, ◌≡◌, refl, List, [], ◌∷◌, ◌++◌, length, take, drop, ltb, le→ltb, if◌then◌else◌, arith,
}
use girth.Shared.Result.{ok, err}
use girth.Error.{other_error}
use girth.Control.Framing.{Connection, Json, IsPipe, write_json, read_json, read-write_json}

abbrev pipe : Connection (List ℕ)
pipe = record {
  set_write_timeout = λ n s. ok s;
  set_read_timeout = λ n s. ok s;
  write_all = λ b s. ok (s ++ b);
  flush = λ s. ok s;
  read_exact = λ n s. if ltb (length s) n then err (other_error []) else ok (take n s, drop n s);
}

pipe-IsPipe : IsPipe pipe
pipe-IsPipe = record {
  pending = λ s. s;
  write_timeout = λ n s. (s, refl, refl);
  read_timeout = λ n s. (s, refl, refl);
  writes = λ b s. (s ++ b, refl, refl);
  flushes = λ s. (s, refl, refl);
  reads = λ n s h. (drop n s, rw (le→ltb (length s) n h) refl, refl);
}

abbrev plain : Json (List ℕ)
plain = record { to_vec = λ b. ok b; from_slice = λ b. ok b }

abbrev message : List ℕ
message = 8 ∷ 9 ∷ []

read-write_json_example :
    (written rest : List ℕ) × (write_json pipe plain message [] ≡ ok written)
    × (read_json pipe plain written ≡ ok (message, rest))
    × (rest ≡ [])
unfolding pipe-IsPipe
read-write_json_example =
    read-write_json pipe plain pipe-IsPipe message message [] refl refl (omega arith) refl
