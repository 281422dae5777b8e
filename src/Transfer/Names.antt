-- ===== src/Transfer/Names.antt =====
-- src/transfer.rs and src/control.rs: the names of served objects and the addresses. Paths are those of
-- a Unix system, and white space is ASCII's.
pub mod Laws
mod Tests
use girth.Prelude.{
  ℕ, zero, suc, ◌-◌, Bool, true, false, not, ◌&&◌, ◌||◌, List, [], ◌∷◌, ◌++◌, Option, none, some,
  leb, ◌==◌, take, if◌then◌else◌,
}
use girth.Prelude.Int.{ℤ}
use girth.Auth.{same_bytes}
use girth.Shared.Result.{Result, ok, err, ◌>>=◌}
use girth.Shared.Text.{text, rfind, show_i64}
use girth.Error.{IoError, ErrorKind, other_error}
use girth.Receiver.{SocketAddr}

-- The parts of a path between the slashes.
abbrev split_slash : List ℕ → List ℕ → List (List ℕ)
split_slash [] part = part ∷ []
split_slash (x ∷ s) part =
    let cut = split_slash s [] in
    let more = split_slash s (part ++ (x ∷ [])) in if x == 47 then part ∷ cut else more

abbrev pub is_dot : List ℕ → Bool
is_dot b = same_bytes b (text ".")

abbrev pub is_dots : List ℕ → Bool
is_dots b = same_bytes b (text "..")

abbrev pub is_nil : List ℕ → Bool
is_nil [] = true
is_nil (x ∷ s) = false

-- The last part that is neither empty nor a dot.
abbrev last_part : List (List ℕ) → Option (List ℕ)
last_part [] = none
last_part (b ∷ rest) = elim (last_part rest) [
  | some c ↦ some c
  | none ↦ if is_nil b || is_dot b then none else some b
]

-- `Path::file_name`
unfoldable pub file_name : List ℕ → Option (List ℕ)
file_name p = elim (last_part (split_slash p [])) [
  | none ↦ none
  | some b ↦ if is_dots b then none else some b
]

unfoldable pub basename : List ℕ → List ℕ
unfolding file_name
basename p = elim (file_name p) [ some b ↦ b | none ↦ p ]

abbrev pub has_byte : List ℕ → ℕ → Bool
has_byte [] b = false
has_byte (x ∷ s) b = x == b || has_byte s b

abbrev pub invalid_name : IoError
invalid_name = record { kind = ErrorKind.invalid_input; message = text "invalid object name" }

abbrev pub bad_name : List ℕ → Bool
bad_name b = is_nil b || is_dot b || is_dots b || has_byte b 47 || has_byte b 92

unfoldable pub served_object_name : List ℕ → Result IoError (List ℕ)
unfolding basename
served_object_name name = let b = basename name in if bad_name b then err invalid_name else ok b

abbrev trim_start : (ℕ → Bool) → List ℕ → List ℕ
trim_start p [] = []
trim_start p (x ∷ s) = let rest = trim_start p s in if p x then rest else x ∷ s

abbrev trim_end : (ℕ → Bool) → List ℕ → List ℕ
trim_end p [] = []
trim_end p (x ∷ s) = elim (trim_end p s) [
  | [] ↦ if p x then [] else x ∷ []
  | y ∷ rest ↦ x ∷ y ∷ rest
]

abbrev is_space : ℕ → Bool
is_space b = leb 9 b && leb b 13 || b == 32

abbrev all_digits : List ℕ → Bool
all_digits [] = true
all_digits (x ∷ s) = leb 48 x && leb x 57 && all_digits s

unfoldable pub normalize_listen_addr : List ℕ → List ℕ
normalize_listen_addr addr =
    let a = trim_end is_space (trim_start is_space addr) in
    elim (rfind a 58) [
      | some i ↦ if i == 0 then text "0.0.0.0" ++ a else a
      | none ↦ if not (is_nil a) && all_digits a then text "0.0.0.0:" ++ a else a
    ]

-- The host of the server's address with the port, as `resolve_peer` asks for it.
unfoldable pub peer_target : List ℕ → ℤ → List ℕ
unfolding show_i64
peer_target server_addr udp_port =
    let host : List ℕ = elim (rfind server_addr 58) [
      | some i ↦ take i server_addr
      | none ↦ server_addr
    ] in
    let bare = trim_end (λ b. b == 93) (trim_start (λ b. b == 91) host) in
    bare ++ (58 ∷ show_i64 udp_port)

abbrev pub first_addr : List ℕ → List SocketAddr → Result IoError SocketAddr
first_addr message [] = err (other_error message)
first_addr message (a ∷ more) = ok a

-- `to_socket_addrs` is the system's resolver.
module _ (to_socket_addrs : List ℕ → Result IoError (List SocketAddr)) where
  unfoldable pub resolve_peer : List ℕ → ℤ → Result IoError SocketAddr
  unfolding peer_target
  resolve_peer server_addr udp_port =
      let target = peer_target server_addr udp_port in
      to_socket_addrs target >>= first_addr (text "cannot resolve peer " ++ target)

  -- `TcpStream::connect_timeout` is the system's too, with the timeout in seconds.
  unfoldable pub connect_control :
      {S : Type 0} → (SocketAddr → ℕ → Result IoError S) → List ℕ → Result IoError S
  connect_control connect server_addr = to_socket_addrs server_addr >>= λ addrs.
      first_addr (text "cannot resolve server") addrs >>= λ addr. connect addr 15

-- The ports of a range, tried in order; `count` are left.
abbrev bind_ports : (ℕ → Bool → Result IoError ℕ) → Bool → ℕ → ℕ → IoError → Result IoError ℕ
bind_ports new_udp_socket rio zero port last_err = err last_err
bind_ports new_udp_socket rio (suc count) port last_err = elim (new_udp_socket port rio) [
  | ok s ↦ ok s
  | err e ↦ bind_ports new_udp_socket rio count (suc port) e
]

-- A socket is known by its port; the range is inclusive.
unfoldable pub bind_data_socket :
    (ℕ → Bool → Result IoError ℕ) → Option (ℕ × ℕ) → Bool → Result IoError ℕ
bind_data_socket new_udp_socket none rio = new_udp_socket 0 rio
bind_data_socket new_udp_socket (some (first, last)) rio =
    bind_ports new_udp_socket rio (suc last - first) first
      (record { kind = ErrorKind.addr_not_available; message = text "no free port in UDP range" })
